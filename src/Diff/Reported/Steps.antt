-- ===== src/Diff/Reported/Steps.antt =====
-- What one round of the loop adds to each list of the result.
use mathlib.Core.List.{append-nil}
use lumenqraph.Base.{
  ◌≡◌, refl, sym, Bool, true, false, not, ◌||◌, Option, none, some, List, [], ◌∷◌, ◌++◌, Bool-cases,
  inl, inr, arith, if◌then◌else◌,
}
use lumenqraph.Base.Str.{Str, str_eq}
use lumenqraph.Diff.Types.{SectionDiff, ChangedItem, ReorderedItem, breaking}
use lumenqraph.Diff.Sections.{push_moved, push_name}
use lumenqraph.Diff.Reported.Deltas.{Delta}

unfoldable pub added_delta : Bool → Str → Option Str → Option Str → List Str
added_delta r n none (some after) = after ∷ []
added_delta r n _ _ = []

unfoldable pub removed_delta : Bool → Str → Option Str → Option Str → List Str
removed_delta r n (some before) none = before ∷ []
removed_delta r n _ _ = []

abbrev pub changed_item : Str → Str → Str → ChangedItem
changed_item n before after = record { name = n; from = before; to = after; severity = breaking }

unfoldable pub changed_delta : Bool → Str → Option Str → Option Str → List ChangedItem
changed_delta r n (some before) (some after) =
    if r || str_eq before after then [] else changed_item n before after ∷ []
changed_delta r n _ _ = []

abbrev pub reordered_item : Str → Str → Str → ReorderedItem
reordered_item n before after = record { name = n; from = before; to = after; severity = breaking }

unfoldable pub reordered_delta : Bool → Str → Option Str → Option Str → List ReorderedItem
reordered_delta r n (some before) (some after) =
    if not r || str_eq before after then [] else reordered_item n before after ∷ []
reordered_delta r n _ _ = []

module _ {ℓ} {X : Type ℓ} where
  add_nothing : (xs : List X) → xs ≡ xs ++ []
  add_nothing xs = sym (append-nil xs)

pub added_step :
    (r : Bool) (n : Str) (o w : Option Str) (d : SectionDiff)
    → (push_name r n o w d).added ≡ d.added ++ added_delta r n o w
unfolding push_name push_moved added_delta
added_step r n none (some a) d = refl
added_step true n (some b) (some a) d = ground (arith, add_nothing d.added)
added_step false n (some b) (some a) d = ground (arith, add_nothing d.added)
added_step r n (some b) none d = add_nothing d.added
added_step r n none none d = add_nothing d.added

pub removed_step :
    (r : Bool) (n : Str) (o w : Option Str) (d : SectionDiff)
    → (push_name r n o w d).removed ≡ d.removed ++ removed_delta r n o w
unfolding push_name push_moved removed_delta
removed_step r n (some b) none d = refl
removed_step true n (some b) (some a) d = ground (arith, add_nothing d.removed)
removed_step false n (some b) (some a) d = ground (arith, add_nothing d.removed)
removed_step r n none (some a) d = add_nothing d.removed
removed_step r n none none d = add_nothing d.removed

pub changed_step :
    (r : Bool) (n : Str) (o w : Option Str) (d : SectionDiff)
    → (push_name r n o w d).changed ≡ d.changed ++ changed_delta r n o w
unfolding push_name push_moved changed_delta
changed_step false n (some b) (some a) d = elim (Bool-cases (str_eq b a)) [
  | inl e ↦ rw e (add_nothing d.changed)
  | inr e ↦ rw e
]
changed_step true n (some b) (some a) d = ground (arith, add_nothing d.changed)
changed_step r n (some b) none d = add_nothing d.changed
changed_step r n none (some a) d = add_nothing d.changed
changed_step r n none none d = add_nothing d.changed

pub reordered_step :
    (r : Bool) (n : Str) (o w : Option Str) (d : SectionDiff)
    → (push_name r n o w d).reordered ≡ d.reordered ++ reordered_delta r n o w
unfolding push_name push_moved reordered_delta
reordered_step true n (some b) (some a) d = elim (Bool-cases (str_eq b a)) [
  | inl e ↦ rw e (add_nothing d.reordered)
  | inr e ↦ rw e
]
reordered_step false n (some b) (some a) d = ground (arith, add_nothing d.reordered)
reordered_step r n (some b) none d = add_nothing d.reordered
reordered_step r n none (some a) d = add_nothing d.reordered
reordered_step r n none none d = add_nothing d.reordered

pub added_absent : (r : Bool) (n : Str) → added_delta r n none none ≡ []
unfolding added_delta
added_absent r n = refl

abbrev pub added_list : Delta Str
added_list = record {
  list = λ d. d.added;
  start = refl;
  delta = added_delta;
  absent = added_absent;
  step = added_step;
}

pub removed_absent : (r : Bool) (n : Str) → removed_delta r n none none ≡ []
unfolding removed_delta
removed_absent r n = refl

abbrev pub removed_list : Delta Str
removed_list = record {
  list = λ d. d.removed;
  start = refl;
  delta = removed_delta;
  absent = removed_absent;
  step = removed_step;
}

pub changed_absent : (r : Bool) (n : Str) → changed_delta r n none none ≡ []
unfolding changed_delta
changed_absent r n = refl

abbrev pub changed_list : Delta ChangedItem
changed_list = record {
  list = λ d. d.changed;
  start = refl;
  delta = changed_delta;
  absent = changed_absent;
  step = changed_step;
}

pub reordered_absent : (r : Bool) (n : Str) → reordered_delta r n none none ≡ []
unfolding reordered_delta
reordered_absent r n = refl

abbrev pub reordered_list : Delta ReorderedItem
reordered_list = record {
  list = λ d. d.reordered;
  start = refl;
  delta = reordered_delta;
  absent = reordered_absent;
  step = reordered_step;
}
