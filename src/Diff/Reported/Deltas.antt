-- ===== src/Diff/Reported/Deltas.antt =====
-- Each list of the result is the list of what the rounds add to it.
use mathlib.Core.List.{append-nil, append_assoc}
use lumenqraph.Base.{
  ◌≡◌, refl, ◌∙◌, sym, Bool, Option, none, some, List, [], ◌∷◌, ◌++◌, In, here, there,
  In-append_left, In-append_right, In-append_cases, ◌⊎◌, inl, inr,
}
use lumenqraph.Base.Str.{Str}
use lumenqraph.Base.Maps.{Map, get}
use lumenqraph.Diff.Types.{SectionDiff, empty_section}
use lumenqraph.Diff.Sections.{
  reordered_params, push_name, names, diff_names, diff_section_with_params,
}
use lumenqraph.Diff.Reported.Names.{In-names_old, In-names_new}

-- What a round adds to one list, from the reorder test, the name and the two signatures.
pub record Delta {ℓ} (X : Type ℓ) : Type ℓ where
  pub list : SectionDiff → List X
  pub start : list empty_section ≡ []
  pub delta : Bool → Str → Option Str → Option Str → List X
  pub absent : (r : Bool) (n : Str) → delta r n none none ≡ []
  pub step :
      (r : Bool) (n : Str) (o w : Option Str) (d : SectionDiff)
      → list (push_name r n o w d) ≡ list d ++ delta r n o w

module _ {ℓ} {X : Type ℓ} (δ : Delta X) (old new : Map Str) (op np : Map (List Str)) where
  abbrev pub delta_at : Str → List X
  delta_at n = δ.delta (reordered_params (get op n) (get np n)) n (get old n) (get new n)

  deltas : List Str → List X
  deltas [] = []
  deltas (n ∷ ns) = delta_at n ++ deltas ns

  diff_names-deltas :
      (ns : List Str) (d : SectionDiff)
      → δ.list (diff_names old new op np ns d) ≡ δ.list d ++ deltas ns
  unfolding diff_names deltas
  diff_names-deltas [] d = sym (append-nil (δ.list d))
  diff_names-deltas (n ∷ ns) d =
      diff_names-deltas ns _ ∙ rw δ.step (append_assoc (δ.list d) (delta_at n) (deltas ns))

  In-of_deltas : {x : X} (ns : List Str) → In x (deltas ns) → (n : Str) × In x (delta_at n)
  unfolding deltas
  In-of_deltas [] h = elim h [ ]
  In-of_deltas (n ∷ ns) h = elim (In-append_cases (delta_at n) (deltas ns) h) [
    | inl l ↦ (n, l)
    | inr r ↦ In-of_deltas ns r
  ]

  In-deltas : {x : X} {n : Str} (ns : List Str) → In n ns → In x (delta_at n) → In x (deltas ns)
  unfolding deltas
  In-deltas [] m h = elim m [ ]
  In-deltas (n ∷ ns) here h = In-append_left (delta_at n) (deltas ns) h
  In-deltas (n ∷ ns) (there m) h = In-append_right (delta_at n) (deltas ns) (In-deltas ns m h)

  whole : δ.list (diff_section_with_params old new op np) ≡ deltas (names old new)
  unfolding diff_section_with_params
  whole = diff_names-deltas (names old new) empty_section ∙ rw δ.start refl

  present :
      {x : X} (r : Bool) (n : Str) (o w : Option Str)
      → In x (δ.delta r n o w)
      → ((v : Str) × (o ≡ some v)) ⊎ ((v : Str) × (w ≡ some v))
  present r n (some v) w h = inl (v, refl)
  present r n none (some v) h = inr (v, refl)
  present r n none none h = none_there (rw (δ.absent r n) at h)
    where
      none_there : {x : X} → In x [] → ((v : Str) × (none ≡ some v)) ⊎ ((v : Str) × (none ≡ some v))
      none_there m = elim m [ ]

  pub reported_only :
      {x : X}
      → In x (δ.list (diff_section_with_params old new op np))
      → (n : Str) × In x (delta_at n)
  reported_only h = In-of_deltas (names old new) (rw whole at h)

  pub reported_all :
      {x : X} (n : Str) → In x (delta_at n) → In x (δ.list (diff_section_with_params old new op np))
  reported_all n h = rw whole (In-deltas (names old new) (named (present _ n _ _ h)) h)
    where
      named :
          ((v : Str) × (get old n ≡ some v)) ⊎ ((v : Str) × (get new n ≡ some v))
          → In n (names old new)
      named (inl (v, e)) = In-names_old old new n e
      named (inr (v, e)) = In-names_new old new n e
