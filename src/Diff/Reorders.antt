-- ===== src/Diff/Reorders.antt =====
-- What counts as a reorder of parameters.
use mathlib.Core.List.{Perm}
use lumenqraph.Base.{◌≡◌, ◌≢◌, ◌↔◌, true, List, arith}
use lumenqraph.Base.Str.{Str, strs_eq_iff}
use lumenqraph.Base.Sort.{sort, sort-eq_of_perm, length-perm, perm_of_sort-eq}
use lumenqraph.Diff.Sections.{is_param_reorder}

-- Two parameter lists are a reorder exactly when they are different and one is a permutation of the
-- other.
is_param_reorder_iff :
    (old new : List Str) → (is_param_reorder old new ≡ true) ↔ (Perm old new × (old ≢ new))
unfolding is_param_reorder
is_param_reorder_iff old new = (forward, backward)
  where
    forward : is_param_reorder old new ≡ true → Perm old new × (old ≢ new)
    forward h = (
      perm_of_sort-eq old new (ground (arith, (strs_eq_iff (sort old) (sort new)).0)),
      λ e. ground (arith, (strs_eq_iff old new).1 e),
    )

    backward : Perm old new × (old ≢ new) → is_param_reorder old new ≡ true
    backward (p, ne) = ground (
      arith,
      ne,
      length-perm old new p,
      (strs_eq_iff old new).0,
      (strs_eq_iff (sort old) (sort new)).1 (sort-eq_of_perm old new p),
    )
