-- ===== src/SpecIndex/Prefixes.antt =====
-- Which event schema the topics of an event select.
use lumenqraph.Base.{
  ℕ, ◌+◌, ◌≤◌, ◌<◌, ◌≡◌, refl, sym, ap, ◌∙◌, ◌⊎◌, true, false, Option, none, some, List, [], ◌∷◌,
  length, take, is_nil, In, inl, inr, Bool-cases, arith,
}
use lumenqraph.Base.Str.{Str, str_eq, strs_eq, eq_of_strs_eq}
use lumenqraph.Base.Chain.{◌>>=◌}
use lumenqraph.Spec.{EventSpec}
use lumenqraph.SpecIndex.{hash_get, nth, events_by_prefix, events_by_name, is_match, match_event}
use lumenqraph.SpecIndex.Scans.{first_of, map_option}
use lumenqraph.SpecIndex.Places.{
  last_place, hash_get-index_prefixes, last_place-last, last_place-some,
}
use lumenqraph.SpecIndex.Longest.{best_prefix-IsBest}

-- An iteration over the index has each of its entries.
abbrev pub IsIteration : List (List Str × ℕ) → List EventSpec → Type 0
IsIteration entries events =
    (p : List Str) (i : ℕ)
    → (In (p, i) entries → hash_get strs_eq (events_by_prefix events) p ≡ some i)
      × (hash_get strs_eq (events_by_prefix events) p ≡ some i → In (p, i) entries)

-- The event at a place has a matching prefix; no matching prefix is longer, and no later event
-- has one as long.
abbrev pub IsLongest : List EventSpec → List Str → ℕ → Type 0
IsLongest events topics i =
    (e : EventSpec) × (nth events i ≡ some e)
    × (is_match topics e.prefix_topics ≡ true)
    × ((j : ℕ) (d : EventSpec)
        → nth events j ≡ some d
        → is_match topics d.prefix_topics ≡ true
        → (length d.prefix_topics ≤ length e.prefix_topics)
          × (length d.prefix_topics ≡ length e.prefix_topics → j ≤ i))

place_of :
    (events : List EventSpec) (p : List Str)
    → hash_get strs_eq (events_by_prefix events) p ≡ last_place events p
unfolding events_by_prefix hash_get
place_of events p = hash_get-index_prefixes 0 events [] p ∙ go (last_place events p)
  where
    go : (o : Option ℕ) → first_of (map_option (λ i. 0 + i) o) none ≡ o
    go none = refl
    go (some i) = ap some (omega arith)

is_match-nonempty : (topics p : List Str) → is_match topics p ≡ true → is_nil p ≡ false
is_match-nonempty topics [] h = cc
is_match-nonempty topics (x ∷ xs) h = refl

is_match-take : (topics p : List Str) → is_match topics p ≡ true → take (length p) topics ≡ p
is_match-take topics p h = eq_of_strs_eq (take (length p) topics) p (ground (arith, h))

is_match-same :
    (topics p q : List Str)
    → is_match topics p ≡ true
    → is_match topics q ≡ true
    → length p ≡ length q
    → p ≡ q
is_match-same topics p q h k e =
    sym (is_match-take topics p h) ∙ ap (λ n. take n topics) e ∙ is_match-take topics q k

module _ (events : List EventSpec) (entries : List (List Str × ℕ)) (topics : List Str)
    (it : IsIteration entries events) where
  -- An event with a matching prefix has an entry.
  has_entry :
      (j : ℕ) (d : EventSpec)
      → nth events j ≡ some d
      → is_match topics d.prefix_topics ≡ true
      → (i : ℕ) × In (d.prefix_topics, i) entries
  has_entry j d at h =
      let (i, f) = last_place-some events j d at (is_match-nonempty topics d.prefix_topics h) in
      (i, (it d.prefix_topics i).1 (place_of events d.prefix_topics ∙ f))

  entry-IsLongest :
      (p : List Str) (i : ℕ)
      → In (p, i) entries
      → is_match topics p ≡ true
      → ((q : List Str) (j : ℕ)
          → In (q, j) entries
          → is_match topics q ≡ true
          → length q ≤ length p)
      → IsLongest events topics i
  entry-IsLongest p i m h longest =
      let (e, at, same, last) =
        last_place-last events p i (sym (place_of events p) ∙ (it p i).0 m) in
      let long = ap length same in
      (
        e,
        at,
        rw (← same) at h,
        λ j d place hit.
            let (k, n) = has_entry j d place hit in
            (
              omega (arith, longest d.prefix_topics k n hit, long),
              λ tie.
                  last j d place (is_match-same topics d.prefix_topics p hit h (tie ∙ long))
                    (is_match-nonempty topics p h),
            ),
      )

-- In whatever order the index is iterated over: if the topics begin with the prefix of an event,
-- then the event that is matched is the one with the longest such prefix, and the last declared
-- of those with the same prefix. If they begin with none, the event is looked up by its name.
pub match_event_lem :
    (events : List EventSpec) (entries : List (List Str × ℕ)) (event_name : Str) (topics : List Str)
    → IsIteration entries events
    → ((i : ℕ) × IsLongest events topics i
        × (match_event events entries event_name topics ≡ nth events i))
      ⊎ (((j : ℕ) (d : EventSpec) → nth events j ≡ some d → is_match topics d.prefix_topics ≡ false)
          × (match_event events entries event_name topics
              ≡ (hash_get str_eq (events_by_name events) event_name >>= (λ i. nth events i))))
unfolding match_event
match_event_lem events entries event_name topics it =
    elim (best_prefix-IsBest topics none 0 entries) [
      | inl (r, shorter) ↦ inr (λ j d at. unmatched j d at shorter, rw r refl)
      | inr (p, i, m, h, l, r, longest) ↦
          inl (i, entry-IsLongest events entries topics it p i m h longest, rw r refl)
    ]
  where
    empty : (n : ℕ) → n < 0 → ⊥
    empty n h = ground arith

    unmatched :
        (j : ℕ) (d : EventSpec)
        → nth events j ≡ some d
        → ((p : List Str) (i : ℕ) → In (p, i) entries → is_match topics p ≡ true → length p < 0)
        → is_match topics d.prefix_topics ≡ false
    unmatched j d at shorter = elim (Bool-cases (is_match topics d.prefix_topics)) [
      | inl t ↦
          let (i, m) = has_entry events entries topics it j d at t in
          elim (empty (length d.prefix_topics) (shorter d.prefix_topics i m t)) [ ]
      | inr f ↦ f
    ]
