-- ===== src/RpcClient/Hosts.antt =====
-- `host_of` of crates/lumenqraph-indexer/src/rpc_client.rs: the part of an address that is logged.
use lumenqraph.Base.{
  ℕ, ◌≡◌, refl, true, not, Option, none, some, [], ◌∷◌, ◌++◌, all, drop, arith, ◌==◌, if◌then◌else◌,
}
use lumenqraph.Base.Str.{Str, lit}
use lumenqraph.Base.Text.{starts_with, take_while}

-- The slice after the first `://`.
unfoldable pub after_scheme : Str → Option Str
unfolding starts_with
after_scheme [] = none
after_scheme (c ∷ cs) =
    let rest = after_scheme cs in
    if starts_with (lit "://") (c ∷ cs) then some (drop 3 (c ∷ cs)) else rest

-- The slice after the first `@`.
unfoldable pub after_at : Str → Option Str
after_at [] = none
after_at (c ∷ cs) = let rest = after_at cs in if c == 64 then some cs else rest

unfoldable pub unwrap_or : Str → Option Str → Str
unwrap_or s none = s
unwrap_or s (some t) = t

unfoldable pub host_of : Str → Str
unfolding after_scheme after_at unwrap_or take_while
host_of url =
    let after : Str = unwrap_or url (after_scheme url) in
    let host_and_rest : Str = unwrap_or after (after_at after) in
    take_while (λ c. not (c == 47)) host_and_rest

abbrev HasNo : ℕ → Str → Type 0
HasNo c s = all (λ d. not (d == c)) s ≡ true

-- An address with its host and a path: with user information before the host, or without `@`.
pub data IsAddress (host : Str) : Str → Type 0 where
  plain :
      (scheme path : Str)
      → HasNo 58 scheme
      → HasNo 47 host
      → HasNo 64 (host ++ 47 ∷ path)
      → IsAddress host (scheme ++ 58 ∷ 47 ∷ 47 ∷ (host ++ 47 ∷ path))
  with_user :
      (scheme user path : Str)
      → HasNo 58 scheme
      → HasNo 47 host
      → HasNo 64 user
      → IsAddress host (scheme ++ 58 ∷ 47 ∷ 47 ∷ (user ++ 64 ∷ (host ++ 47 ∷ path)))

after_scheme-scheme :
    (scheme rest : Str) → HasNo 58 scheme → after_scheme (scheme ++ 58 ∷ 47 ∷ 47 ∷ rest) ≡ some rest
unfolding after_scheme starts_with all
after_scheme-scheme [] rest h = refl
after_scheme-scheme (c ∷ cs) rest h = ground (arith, h, after_scheme-scheme cs rest)

after_at-user : (user rest : Str) → HasNo 64 user → after_at (user ++ 64 ∷ rest) ≡ some rest
unfolding after_at all
after_at-user [] rest h = refl
after_at-user (c ∷ cs) rest h = ground (arith, h, after_at-user cs rest)

after_at-none : (s : Str) → HasNo 64 s → after_at s ≡ none
unfolding after_at all
after_at-none [] h = refl
after_at-none (c ∷ cs) h = ground (arith, h, after_at-none cs)

take_while-host :
    (host path : Str) → HasNo 47 host → take_while (λ c. not (c == 47)) (host ++ 47 ∷ path) ≡ host
unfolding take_while all
take_while-host [] path h = refl
take_while-host (c ∷ cs) path h = ground (arith, h, take_while-host cs path)

-- What is logged of an address with a path is its host, without the scheme and the path, and
-- without the user information where that has no `@`.
pub host_of-address : {host url : Str} → IsAddress host url → host_of url ≡ host
unfolding host_of unwrap_or
host_of-address {host = host} (plain scheme path s h a) = rw (
  host_of,
  after_scheme-scheme scheme (host ++ 47 ∷ path) s,
  after_at-none (host ++ 47 ∷ path) a,
  take_while-host host path h,
)
host_of-address {host = host} (with_user scheme user path s h u) = rw (
  host_of,
  after_scheme-scheme scheme (user ++ 64 ∷ (host ++ 47 ∷ path)) s,
  after_at-user user (host ++ 47 ∷ path) u,
  take_while-host host path h,
)

-- A query is kept where no path comes before it, and a password is cut at its first `@`.
query_is_kept : host_of (lit "https://h?key=s") ≡ lit "h?key=s"
unfolding host_of after_scheme after_at unwrap_or take_while starts_with
query_is_kept = refl

password_is_cut : host_of (lit "https://u:p@w@h/x") ≡ lit "w@h"
unfolding host_of after_scheme after_at unwrap_or take_while starts_with
password_is_cut = refl
