-- ===== src/Diff/Unchanged.antt =====
-- A section of a diff is empty exactly when the two maps agree.
use lumenqraph.Diff.Reported.{added_iff, removed_iff, changed_iff, reordered_iff}
use lumenqraph.Base.{
  is_nil, In, inl, inr, Bool-cases, ap, ◌≢◌, ◌≡◌, ◌↔◌, refl, Option, none, some, List, [], ◌∷◌,
  true, false, arith,
}
use lumenqraph.Base.Str.{Str, str_eq, eq_of_str_eq, str_eq_refl, str_eq_iff}
use lumenqraph.Base.Maps.{Map, get}
use lumenqraph.Spec.{ContractSpec}
use lumenqraph.Diff.Types.{SectionDiff, empty_section, section_is_empty, has_breaking}
use lumenqraph.Diff.{assemble, between, is_empty, diff_functions}
use lumenqraph.Diff.Sections.{
  names, push_name, reordered_params, diff_names, diff_section_with_params, diff_section,
}
use lumenqraph.Diff.Reclassify.{reclassify, reclassify_loop, diff_events, diff_types}

push_same : (r : _) (n : Str) (o : Option Str) (d : SectionDiff) → push_name r n o o d ≡ d
unfolding push_name
push_same r n none d = refl
push_same r n (some b) d = rw (str_eq_refl b)

module _ (m : Map Str) (op np : Map (List Str)) where
  diff_names-same : (ns : List Str) (d : SectionDiff) → diff_names m m op np ns d ≡ d
  unfolding diff_names
  diff_names-same [] d = refl
  diff_names-same (n ∷ ns) d = rw push_same (diff_names-same ns d)

  -- Comparing a map with itself reports nothing.
  pub diff_section_same : diff_section_with_params m m op np ≡ empty_section
  unfolding diff_section_with_params
  diff_section_same = diff_names-same (names m m) empty_section

functions_self : (s : ContractSpec) → diff_functions s s ≡ empty_section
unfolding diff_functions
functions_self s = rw diff_section_same

events_self : (s : ContractSpec) → diff_events s s ≡ empty_section
unfolding diff_events diff_section reclassify reclassify_loop
events_self s = rw diff_section_same

types_self : (s : ContractSpec) → diff_types s s ≡ empty_section
unfolding diff_types diff_section reclassify reclassify_loop
types_self s = rw diff_section_same

-- An interface compared with itself: nothing is reported, and nothing is breaking.
between_self :
    (s : ContractSpec) → (is_empty (between s s) ≡ true) × ((between s s).breaking ≡ false)
unfolding between assemble is_empty section_is_empty has_breaking
between_self s = rw (functions_self, events_self, types_self) (refl, refl)

ne_of_str_eq : (b a : Str) → str_eq b a ≡ false → b ≢ a
ne_of_str_eq b a h e = cc (h, (str_eq_iff b a).1 e)

is_nil-none : {A : Type 0} (xs : List A) → is_nil xs ≡ true → {x : A} → In x xs → ⊥
is_nil-none [] h m = elim m [ ]
is_nil-none (x ∷ xs) h m = cc

module _ (old new : Map Str) (op np : Map (List Str)) where
  maps_agree :
      section_is_empty (diff_section_with_params old new op np) ≡ true
      → (n : Str) (o w : Option Str) → get old n ≡ o
      → get new n ≡ w
      → o ≡ w
  unfolding section_is_empty
  maps_agree h n none none p q = refl
  maps_agree h n none (some a) p q =
      absurd (is_nil-none _ (ground arith) ((added_iff old new op np a).1 (n, p, q)))
  maps_agree h n (some b) none p q =
      absurd (is_nil-none _ (ground arith) ((removed_iff old new op np b).1 (n, p, q)))
  maps_agree h n (some b) (some a) p q = elim (Bool-cases (str_eq b a)) [
    | inl e ↦ ap some (eq_of_str_eq b a e)
    | inr e ↦ elim (Bool-cases (reordered_params (get op n) (get np n))) [
      | inl r ↦ absurd (
          is_nil-none _ (ground arith)
            ((reordered_iff old new op np _).1 (n, b, a, p, q, r, ne_of_str_eq b a e, refl)))
      | inr r ↦ absurd (
          is_nil-none _ (ground arith)
            ((changed_iff old new op np _).1 (n, b, a, p, q, r, ne_of_str_eq b a e, refl)))
    ]
  ]

  diff_names-agree :
      ((n : Str) → get old n ≡ get new n)
      → (ns : List Str) (d : SectionDiff) → diff_names old new op np ns d ≡ d
  unfolding diff_names
  diff_names-agree same [] d = refl
  diff_names-agree same (n ∷ ns) d = rw (same n, push_same) (diff_names-agree same ns d)

  -- If the maps differ in no name, nothing is reported, and the other way round.
  section_is_empty_iff :
      (section_is_empty (diff_section_with_params old new op np) ≡ true)
      ↔ ((n : Str) → get old n ≡ get new n)
  unfolding diff_section_with_params section_is_empty
  section_is_empty_iff = (
    λ h n. maps_agree h n (get old n) (get new n) refl refl,
    λ same. rw (diff_names-agree same (names old new) empty_section) refl,
  )
