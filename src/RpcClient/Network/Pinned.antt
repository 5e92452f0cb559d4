-- ===== src/RpcClient/Network/Pinned.antt =====
-- What holds when the startup check of the networks succeeds.
use lumenqraph.Base.{
  ◌≡◌, refl, ap, sym, ◌∙◌, Option, none, some, List, [], ◌∷◌, In, here, there, Bool-cases, inl, inr,
}
use lumenqraph.Base.Str.{Str, str_eq, eq_of_str_eq}
use lumenqraph.Base.Result.{Result, ok, err}
use lumenqraph.RpcClient.Failover.{Client}
use lumenqraph.RpcClient.Network.{
  CallError, Network, passphrase_of, common_passphrase, validate_network_passphrases,
}

-- An endpoint has answered `getNetwork` with a passphrase, at some state of the world.
abbrev pub HasReported : {W R : Type 0} → Network W R → Str → Str → Type 0
HasReported {W} net url p = (w : W) × (passphrase_of (net.get_network w url).1 ≡ ok p)

-- What a successful round over the endpoints shows.
record IsCommon {W R : Type 0} (net : Network W R) (expected found : Option Str) (urls : List Str)
    : Type 0 where
  agreed : (url : Str) → In url urls → (p : Str) → found ≡ some p → HasReported net url p
  kept : (p : Str) → expected ≡ some p → found ≡ some p

module _ {W R : Type 0} (net : Network W R) where
  IsCommon-cons :
      (w : W) {url p : Str} {expected found : Option Str} {rest : List Str}
      → passphrase_of (net.get_network w url).1 ≡ ok p
      → ((q : Str) → expected ≡ some q → q ≡ p)
      → IsCommon net (some p) found rest
      → IsCommon net expected found (url ∷ rest)
  IsCommon-cons w {url} {p} {expected} {found} {rest} answer same ih = record {
    agreed = agreed;
    kept = λ q e. ih.kept p refl ∙ ap some (sym (same q e));
  }
    where
      agreed : (u : Str) → In u (url ∷ rest) → (q : Str) → found ≡ some q → HasReported net u q
      agreed _ here q e = let same_q : p ≡ q = cc (ih.kept p refl, e) in (w, rw same_q at answer)
      agreed u (there i) q e = ih.agreed u i q e

  common_passphrase-IsCommon :
      (w : W) (expected found : Option Str) (urls : List Str)
      → (common_passphrase net w expected urls).1 ≡ ok found
      → IsCommon net expected found urls
  unfolding common_passphrase
  common_passphrase-IsCommon w expected found [] h = record {
    agreed = λ url i p e. elim i [ ];
    kept = λ p e. cc;
  }
  common_passphrase-IsCommon w expected found (url ∷ rest) h =
      step (passphrase_of (net.get_network w url).1) refl expected h
        (λ p e. common_passphrase-IsCommon (net.get_network w url).0 (some p) found rest e)
    where
      step :
          (r : Result CallError Str)
          → passphrase_of (net.get_network w url).1 ≡ r
          → (expected : Option Str) → (common_passphrase net w expected (url ∷ rest)).1 ≡ ok found
          → ((p : Str)
              → (common_passphrase net (net.get_network w url).0 (some p) rest).1 ≡ ok found
              → IsCommon net (some p) found rest)
          → IsCommon net expected found (url ∷ rest)
      step (err e) q expected h ih = let x = rw (common_passphrase, q) at h in cc
      step (ok p) q none h ih =
          let x = rw (common_passphrase, q) at h in IsCommon-cons w q (λ p' e. cc) (ih p x)
      step (ok p) q (some prior) h ih = elim (Bool-cases (str_eq prior p)) [
        | inl same ↦
            let e = eq_of_str_eq prior p same in
            IsCommon-cons w q (λ p' e'. cc) (ih p (rw (common_passphrase, q, same, e) at h))
        | inr other ↦ let x = rw (common_passphrase, q, other) at h in cc
      ]

-- When the startup check succeeds on a list of endpoints, every one of them has answered with the
-- passphrase that is returned, and that passphrase is pinned for the failover.
pub validate_network_passphrases-agreed :
    {W R : Type 0} (net : Network W R) (urls : List Str) (w : W) (c : Client) (p : Str)
    → (validate_network_passphrases net urls w c).2 ≡ ok p
    → ((url : Str) → In url urls → HasReported net url p)
      × ((validate_network_passphrases net urls w c).1.network_passphrase ≡ some p)
unfolding validate_network_passphrases
validate_network_passphrases-agreed net urls w c p h = go (common_passphrase net w none urls).1 refl
  where
    go :
        (r : Result CallError (Option Str))
        → (common_passphrase net w none urls).1 ≡ r
        → ((url : Str) → In url urls → HasReported net url p)
          × ((validate_network_passphrases net urls w c).1.network_passphrase ≡ some p)
    go (err e) q = let x = rw (validate_network_passphrases, q) at h in cc
    go (ok none) q = let x = rw (validate_network_passphrases, q) at h in cc
    go (ok (some p')) q =
        let x = rw (validate_network_passphrases, q) at h in
        let same : p' ≡ p = cc in
        (
          λ url i.
              (common_passphrase-IsCommon net w none (some p') urls q).agreed url i p
                (ap some same),
          rw (validate_network_passphrases, q) (ap some same),
        )
