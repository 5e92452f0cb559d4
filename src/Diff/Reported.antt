-- ===== src/Diff/Reported.antt =====
-- What `diff_section_with_params` reports: something is in a list of the result exactly when the
-- two maps say so at some name.
mod Names
mod Deltas
pub mod Steps
use lumenqraph.Base.{
  ◌≡◌, ◌≢◌, ◌↔◌, refl, sym, ap, ◌∙◌, Bool, true, false, not, ◌||◌, Option, none, some, List, [],
  ◌∷◌, In, here, In-one, Bool-cases, inl, inr, arith, if◌then◌else◌,
}
use lumenqraph.Base.Str.{Str, str_eq, eq_of_str_eq, str_eq_refl, str_eq_iff}
use lumenqraph.Base.Maps.{Map, get}
use lumenqraph.Diff.Types.{SectionDiff, ChangedItem, ReorderedItem, Severity, breaking}
use lumenqraph.Diff.Sections.{reordered_params, diff_section_with_params}
use Deltas.{reported_only, reported_all}
use Steps.{
  added_delta, removed_delta, changed_delta, reordered_delta, changed_item, reordered_item,
  added_list, removed_list, changed_list, reordered_list,
}

-- What the one element of a round is.
added_only :
    (r : Bool) (n : Str) (o w : Option Str) (sig : Str)
    → In sig (added_delta r n o w)
    → (o ≡ none) × (w ≡ some sig)
unfolding added_delta
added_only r n none (some a) sig h = (refl, ap some (sym (In-one h)))
added_only r n (some b) w sig h = elim h [ ]
added_only r n none none sig h = elim h [ ]

removed_only :
    (r : Bool) (n : Str) (o w : Option Str) (sig : Str)
    → In sig (removed_delta r n o w)
    → (o ≡ some sig) × (w ≡ none)
unfolding removed_delta
removed_only r n (some b) none sig h = (ap some (sym (In-one h)), refl)
removed_only r n none w sig h = elim h [ ]
removed_only r n (some b) (some a) sig h = elim h [ ]

-- Something that is reported unless the signatures agree.
In-unless :
    {X : Type 0} {x item : X} (b a : Str)
    → In item (if str_eq b a then [] else x ∷ [])
    → (item ≡ x) × (b ≢ a)
In-unless b a h = go (str_eq b a) refl h
  where
    go :
        {X : Type 0} {x item : X} (t : Bool)
        → str_eq b a ≡ t
        → In item (if t then [] else x ∷ [])
        → (item ≡ x) × (b ≢ a)
    go true e h = elim h [ ]
    go false e h = (In-one h, λ p. cc (e, (str_eq_iff b a).1 p))

-- An entry of `changed` and of `reordered`.
changed_only :
    (r : Bool) (n : Str) (o w : Option Str) (item : ChangedItem)
    → In item (changed_delta r n o w)
    → (b a : Str) × (o ≡ some b)
      × (w ≡ some a)
      × (r ≡ false)
      × (b ≢ a)
      × (item ≡ changed_item n b a)
unfolding changed_delta
changed_only true n (some b) (some a) item h = elim h [ ]
changed_only false n (some b) (some a) item h =
    let (e, ne) = In-unless b a h in (b, a, refl, refl, refl, ne, e)
changed_only r n none w item h = elim h [ ]
changed_only r n (some b) none item h = elim h [ ]

reordered_only :
    (r : Bool) (n : Str) (o w : Option Str) (item : ReorderedItem)
    → In item (reordered_delta r n o w)
    → (b a : Str) × (o ≡ some b)
      × (w ≡ some a)
      × (r ≡ true)
      × (b ≢ a)
      × (item ≡ reordered_item n b a)
unfolding reordered_delta
reordered_only false n (some b) (some a) item h = elim h [ ]
reordered_only true n (some b) (some a) item h =
    let (e, ne) = In-unless b a h in (b, a, refl, refl, refl, ne, e)
reordered_only r n none w item h = elim h [ ]
reordered_only r n (some b) none item h = elim h [ ]

pub str_neq : (b a : Str) → b ≢ a → str_eq b a ≡ false
str_neq b a ne = ground (arith, eq_of_str_eq b a)

In-changed :
    (n b a : Str) → b ≢ a → In (changed_item n b a) (changed_delta false n (some b) (some a))
unfolding changed_delta
In-changed n b a ne = rw (str_neq b a ne) here

In-reordered :
    (n b a : Str) → b ≢ a → In (reordered_item n b a) (reordered_delta true n (some b) (some a))
unfolding reordered_delta
In-reordered n b a ne = rw (str_neq b a ne) here

module _ (old new : Map Str) (op np : Map (List Str)) where
  -- `added` holds the signatures of the names that only the new map has.
  pub added_iff :
      (sig : Str)
      → In sig (diff_section_with_params old new op np).added
        ↔ ((n : Str) × (get old n ≡ none) × (get new n ≡ some sig))
  added_iff sig = (
    λ h.
        let (n, m) = reported_only added_list old new op np h in
        let (p, q) = added_only _ n _ _ sig m in (n, p, q),
    λ (n, p, q). reported_all added_list old new op np n (rw (p, q) (unfold added_delta in here)),
  )

  -- `removed` holds the signatures of the names that only the old map has.
  pub removed_iff :
      (sig : Str)
      → In sig (diff_section_with_params old new op np).removed
        ↔ ((n : Str) × (get old n ≡ some sig) × (get new n ≡ none))
  removed_iff sig = (
    λ h.
        let (n, m) = reported_only removed_list old new op np h in
        let (p, q) = removed_only _ n _ _ sig m in (n, p, q),
    λ (n, p, q).
        reported_all removed_list old new op np n (rw (p, q) (unfold removed_delta in here)),
  )

  -- `changed` holds the names with two different signatures that are no reorder.
  pub changed_iff :
      (item : ChangedItem)
      → In item (diff_section_with_params old new op np).changed ↔ (
          (n b a : Str) × (get old n ≡ some b)
          × (get new n ≡ some a)
          × (reordered_params (get op n) (get np n) ≡ false)
          × (b ≢ a)
          × (item ≡ changed_item n b a))
  changed_iff item = (
    λ h.
        let (n, m) = reported_only changed_list old new op np h in
        let (b, a, p, q, r, ne, e) = changed_only _ n _ _ item m in (n, b, a, p, q, r, ne, e),
    λ (n, b, a, p, q, r, ne, e).
        rw e (reported_all changed_list old new op np n (rw (p, q, r) (In-changed n b a ne))),
  )

  -- `reordered` holds the names with two different signatures over the same parameters in another
  -- order.
  pub reordered_iff :
      (item : ReorderedItem)
      → In item (diff_section_with_params old new op np).reordered ↔ (
          (n b a : Str) × (get old n ≡ some b)
          × (get new n ≡ some a)
          × (reordered_params (get op n) (get np n) ≡ true)
          × (b ≢ a)
          × (item ≡ reordered_item n b a))
  reordered_iff item = (
    λ h.
        let (n, m) = reported_only reordered_list old new op np h in
        let (b, a, p, q, r, ne, e) = reordered_only _ n _ _ item m in (n, b, a, p, q, r, ne, e),
    λ (n, b, a, p, q, r, ne, e).
        rw e (reported_all reordered_list old new op np n (rw (p, q, r) (In-reordered n b a ne))),
  )
