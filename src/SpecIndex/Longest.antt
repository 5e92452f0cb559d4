-- ===== src/SpecIndex/Longest.antt =====
-- The loop over the index, which keeps the longest match.
use lumenqraph.Base.{
  ℕ, ◌≤◌, ◌<◌, ◌≡◌, refl, ◌⊎◌, Bool, true, false, ◌&&◌, Option, some, List, [], ◌∷◌, length, In,
  here, there, leb, leb→le, inl, inr, Bool-cases, arith,
}
use lumenqraph.Base.Str.{Str}
use lumenqraph.SpecIndex.{is_match, best_prefix}

-- What the loop ends with: the best match so far, if every match is shorter, or a longest match.
abbrev pub IsBest : List Str → List (List Str × ℕ) → Option ℕ → ℕ → Option ℕ → Type 0
IsBest topics entries best best_len result =
    ((result ≡ best)
      × ((p : List Str) (i : ℕ)
          → In (p, i) entries
          → is_match topics p ≡ true
          → length p < best_len))
    ⊎ ((p : List Str) × (i : ℕ) × In (p, i) entries
        × (is_match topics p ≡ true)
        × (best_len ≤ length p)
        × (result ≡ some i)
        × ((q : List Str) (j : ℕ)
            → In (q, j) entries
            → is_match topics q ≡ true
            → length q ≤ length p))

In-entry :
    {p q : List Str} {i k : ℕ} {rest : List (List Str × ℕ)}
    → In (p, i) ((q, k) ∷ rest)
    → (p ≡ q) ⊎ In (p, i) rest
In-entry here = inl refl
In-entry (there m) = inr m

-- A bound on the rest, and on the first entry, is one on all.
both :
    (topics : List Str) {q : List Str} {k : ℕ} {rest : List (List Str × ℕ)} (b : ℕ)
    → (is_match topics q ≡ true → length q ≤ b)
    → ((p : List Str) (i : ℕ) → In (p, i) rest → is_match topics p ≡ true → length p ≤ b)
    → (p : List Str) (i : ℕ) → In (p, i) ((q, k) ∷ rest)
    → is_match topics p ≡ true
    → length p ≤ b
both topics b f g p i m h = elim (In-entry m) [ inl e ↦ rw e (f (rw e at h)) | inr n ↦ g p i n h ]

split_test : (a b : Bool) → (a && b) ≡ true → (a ≡ true) × (b ≡ true)
split_test a b h = (ground (arith, h), ground (arith, h))

failed : (a : Bool) (b n : ℕ) → (a && leb b n) ≡ false → a ≡ true → n < b
failed a b n h t = ground (arith, h, t)

pub best_prefix-IsBest :
    (topics : List Str) (best : Option ℕ) (best_len : ℕ) (entries : List (List Str × ℕ))
    → IsBest topics entries best best_len (best_prefix topics best best_len entries)
unfolding best_prefix
best_prefix-IsBest topics best best_len [] = inl (refl, λ p i m. elim m [ ])
best_prefix-IsBest topics best best_len ((q, k) ∷ rest) =
    elim (Bool-cases (is_match topics q && leb best_len (length q))) [
      | inl t ↦
          let (hit, longer) = split_test (is_match topics q) (leb best_len (length q)) t in
          let up = leb→le best_len (length q) longer in
          rw t (elim (best_prefix-IsBest topics (some k) (length q) rest) [
            | inl (r, shorter) ↦ inr (
              q,
              k,
              here,
              hit,
              up,
              r,
              both topics (length q) (λ h. omega arith) (λ p i m h. omega (arith, shorter p i m h)),
            )
            | inr (p, i, m, h, l, r, longest) ↦
                inr (
                  p,
                  i,
                  there m,
                  h,
                  omega (arith, up, l),
                  r,
                  both topics (length p) (λ g. l) longest,
                )
          ])
      | inr f ↦ rw f (elim (best_prefix-IsBest topics best best_len rest) [
        | inl (r, shorter) ↦ inl (
          r,
          λ p i m h. elim (In-entry m) [
            | inl e ↦ rw e (failed (is_match topics q) best_len (length q) f (rw e at h))
            | inr n ↦ shorter p i n h
          ],
        )
        | inr (p, i, m, h, l, r, longest) ↦ inr (
          p,
          i,
          there m,
          h,
          l,
          r,
          both topics (length p)
              (λ g. omega (arith, failed (is_match topics q) best_len (length q) f g, l)) longest,
        )
      ])
    ]
