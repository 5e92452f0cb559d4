-- ===== src/Diff/Sections.antt =====
-- `diff_section` and `diff_section_with_params` of diff.rs: two maps from a name to a signature are
-- compared name by name.
use lumenqraph.Base.{
  Bool, true, false, not, ◌||◌, Option, none, some, List, [], ◌∷◌, ◌++◌, length, ◌==◌,
  if◌then◌else◌,
}
use lumenqraph.Base.Str.{Str, str_eq, strs_eq}
use lumenqraph.Base.Maps.{Map, get, insert, keys}
use lumenqraph.Base.Sort.{sort}
use lumenqraph.Diff.Types.{SectionDiff, breaking, empty_section}

unfoldable pub is_param_reorder : List Str → List Str → Bool
is_param_reorder old new =
    if not (length old == length new) || strs_eq old new
    then false
    else strs_eq (sort old) (sort new)

-- The test on the optional parameter lists.
unfoldable pub reordered_params : Option (List Str) → Option (List Str) → Bool
reordered_params (some op) (some np) = is_param_reorder op np
reordered_params _ _ = false

-- A name whose signature moved.
unfoldable pub push_moved : Bool → Str → Str → Str → SectionDiff → SectionDiff
push_moved true name before after d = record d {
  reordered =
      d.reordered ++ (record { name = name; from = before; to = after; severity = breaking } ∷ []);
}
push_moved false name before after d = record d {
  changed =
      d.changed ++ (record { name = name; from = before; to = after; severity = breaking } ∷ []);
}

-- One round of the loop, on what the two maps hold at `name`. The last case is `unreachable!`:
-- `In-names` says that a name comes from one of the maps.
unfoldable pub push_name : Bool → Str → Option Str → Option Str → SectionDiff → SectionDiff
push_name reorder name (some before) (some after) d =
    if str_eq before after then d else push_moved reorder name before after d
push_name reorder name (some before) none d = record d { removed = d.removed ++ (before ∷ []) }
push_name reorder name none (some after) d = record d { added = d.added ++ (after ∷ []) }
push_name reorder name none none d = d

-- The set of the names of both maps, in order.
unfoldable pub collect : List Str → Map (Unit {0}) → Map (Unit {0})
collect [] set = set
collect (k ∷ ks) set = collect ks (insert k tt set)

unfoldable pub names : Map Str → Map Str → List Str
names old new = keys (collect (keys old ++ keys new) [])

module _ (old new : Map Str) (old_params new_params : Map (List Str)) where
  unfoldable pub diff_names : List Str → SectionDiff → SectionDiff
  diff_names [] d = d
  diff_names (n ∷ ns) d = diff_names ns (
      push_name (reordered_params (get old_params n) (get new_params n)) n (get old n) (get new n)
        d)

  unfoldable pub diff_section_with_params : SectionDiff
  diff_section_with_params = diff_names (names old new) empty_section

unfoldable pub diff_section : Map Str → Map Str → SectionDiff
diff_section old new = diff_section_with_params old new [] []
