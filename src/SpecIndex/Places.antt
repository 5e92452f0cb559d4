-- ===== src/SpecIndex/Places.antt =====
-- The index by prefix, against the last place of a prefix.
use lumenqraph.Base.{
  ℕ, zero, suc, ◌+◌, ◌≤◌, ◌≡◌, refl, sym, ap, ◌∙◌, Bool, true, false, not, ◌&&◌, Option, none, some,
  List, [], ◌∷◌, is_nil, if◌then◌else◌, inl, inr, Bool-cases, Option-cases, arith,
}
use mathlib.Core.Option.{some-injective}
use lumenqraph.Base.Str.{Str, strs_eq, eq_of_strs_eq, strs_eq_refl}
use lumenqraph.Spec.{EventSpec}
use lumenqraph.SpecIndex.{hash_get, nth, index_prefixes}
use lumenqraph.SpecIndex.Scans.{first_of, map_option}

-- The last event with a prefix.
unfoldable pub last_place : List EventSpec → List Str → Option ℕ
last_place [] p = none
last_place (e ∷ es) p =
    first_of (map_option (λ i. suc i) (last_place es p))
      (if not (is_nil e.prefix_topics) && strs_eq e.prefix_topics p then some 0 else none)

pub hash_get-index_prefixes :
    (n : ℕ) (es : List EventSpec) (m : List (List Str × ℕ)) (p : List Str)
    → hash_get strs_eq (index_prefixes n es m) p
      ≡ first_of (map_option (λ i. n + i) (last_place es p)) (hash_get strs_eq m p)
unfolding index_prefixes last_place hash_get
hash_get-index_prefixes n [] m p = refl
hash_get-index_prefixes n (e ∷ es) m p =
    hash_get-index_prefixes (suc n) es
      (if is_nil e.prefix_topics then m else (e.prefix_topics, n) ∷ m) p
    ∙ go (last_place es p) (is_nil e.prefix_topics)
  where
    go :
        (later : Option ℕ) (empty : Bool)
        → first_of
            (map_option (λ i. suc n + i) later)
            (hash_get strs_eq (if empty then m else (e.prefix_topics, n) ∷ m) p)
          ≡ first_of
              (map_option
                (λ i. n + i)
                (first_of
                  (map_option (λ i. suc i) later)
                  (if not empty && strs_eq e.prefix_topics p then some 0 else none)))
              (hash_get strs_eq m p)
    go (some i) empty = ap some (omega arith)
    go none true = refl
    go none false = elim (Bool-cases (strs_eq e.prefix_topics p)) [
      | inl t ↦ rw t (ap some (omega arith))
      | inr f ↦ rw f refl
    ]

pub last_place-some :
    (es : List EventSpec) (j : ℕ) (d : EventSpec)
    → nth es j ≡ some d
    → is_nil d.prefix_topics ≡ false
    → (i : ℕ) × (last_place es d.prefix_topics ≡ some i)
unfolding last_place nth
last_place-some [] j d h k = cc
last_place-some (e ∷ es) zero d h k = go (last_place es d.prefix_topics)
  where
    same : e ≡ d
    same = some-injective e d h

    go :
        (later : Option ℕ)
        → (i : ℕ) × (first_of (map_option (λ i. suc i) later) (
              if not (is_nil e.prefix_topics) && strs_eq e.prefix_topics d.prefix_topics
              then some 0
              else none)
            ≡ some i)
    go (some i) = (suc i, refl)
    go none = (0, rw (same, k, strs_eq_refl d.prefix_topics) refl)
last_place-some (e ∷ es) (suc j) d h k =
    let (i, f) = last_place-some es j d h k in (suc i, rw f refl)

pub last_place-last :
    (es : List EventSpec) (p : List Str) (i : ℕ)
    → last_place es p ≡ some i
    → (e : EventSpec) × (nth es i ≡ some e)
      × (e.prefix_topics ≡ p)
      × ((j : ℕ) (d : EventSpec)
          → nth es j ≡ some d
          → d.prefix_topics ≡ p
          → is_nil p ≡ false
          → j ≤ i)
unfolding last_place nth
last_place-last [] p i h = cc
last_place-last (e ∷ es) p i h = elim (Option-cases (last_place es p)) [
  | inl e0 ↦ only (rw e0 at h) e0
  | inr (k, e1) ↦ later k (last_place-last es p k e1) (some-injective (suc k) i (rw e1 at h))
]
  where
    later :
        (k : ℕ)
        → ((x : EventSpec) × (nth es k ≡ some x)
            × (x.prefix_topics ≡ p)
            × ((j : ℕ) (d : EventSpec)
                → nth es j ≡ some d
                → d.prefix_topics ≡ p
                → is_nil p ≡ false
                → j ≤ k))
        → suc k ≡ i
        → (x : EventSpec) × (nth (e ∷ es) i ≡ some x)
          × (x.prefix_topics ≡ p)
          × ((j : ℕ) (d : EventSpec)
              → nth (e ∷ es) j ≡ some d
              → d.prefix_topics ≡ p
              → is_nil p ≡ false
              → j ≤ i)
    later k (x, at, eq, last) s = (x, rw (← s) at, eq, bound)
      where
        bound :
            (j : ℕ) (d : EventSpec)
            → nth (e ∷ es) j ≡ some d
            → d.prefix_topics ≡ p
            → is_nil p ≡ false
            → j ≤ i
        bound zero d m q nonnil = omega arith
        bound (suc j) d m q nonnil = omega (arith, last j d m q nonnil, s)

    only :
        (if not (is_nil e.prefix_topics) && strs_eq e.prefix_topics p then some 0 else none)
          ≡ some i
        → last_place es p ≡ none
        → (x : EventSpec) × (nth (e ∷ es) i ≡ some x)
          × (x.prefix_topics ≡ p)
          × ((j : ℕ) (d : EventSpec)
              → nth (e ∷ es) j ≡ some d
              → d.prefix_topics ≡ p
              → is_nil p ≡ false
              → j ≤ i)
    only c absent =
        let zero_place : 0 ≡ i = ground (arith, c) in
        let held : strs_eq e.prefix_topics p ≡ true = ground (arith, c) in
        (e, rw (← zero_place) refl, eq_of_strs_eq e.prefix_topics p held, bound)
      where
        bound :
            (j : ℕ) (d : EventSpec)
            → nth (e ∷ es) j ≡ some d
            → d.prefix_topics ≡ p
            → is_nil p ≡ false
            → j ≤ i
        bound zero d m q nonnil = omega arith
        bound (suc j) d m q nonnil =
            let (k, f) = last_place-some es j d m (rw (← q) at nonnil) in
            let x = sym (rw q at f) ∙ absent in cc
