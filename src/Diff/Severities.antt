-- ===== src/Diff/Severities.antt =====
-- The severity of a diff, its `breaking` flag and its summary agree with one another.
use lumenqraph.Base.{◌≡◌, ◌↔◌, refl, true, ◌&&◌, List, [], ◌∷◌, ◌++◌, map, is_nil, arith}
use lumenqraph.Base.Str.{Str}
use lumenqraph.Spec.{ContractSpec}
use lumenqraph.Diff.Reclassify.{diff_events, diff_types}
use lumenqraph.Diff.{assemble, diff_functions, between, is_empty, section_summary, build_summary}
use lumenqraph.Diff.Types.{
  SectionDiff, breaking, severity_max, section_is_empty, has_breaking, max_severity,
}

has_breaking-max_severity :
    (d : SectionDiff) → (has_breaking d ≡ true) ↔ (max_severity d ≡ breaking)
unfolding has_breaking max_severity
has_breaking-max_severity d = ground arith

-- The flag `breaking` of a diff is set exactly when its `max_severity` is `breaking`.
breaking_iff :
    (old new : ContractSpec)
    → ((between old new).breaking ≡ true) ↔ ((between old new).max_severity ≡ breaking)
unfolding between assemble severity_max
breaking_iff old new = ground (
  arith,
  has_breaking-max_severity (diff_functions old new),
  has_breaking-max_severity (diff_events old new),
  has_breaking-max_severity (diff_types old new),
)

module _ {A B : Type 0} (f : A → B) where
  is_nil-map : (xs : List A) → is_nil (map f xs) ≡ is_nil xs
  is_nil-map [] = refl
  is_nil-map (x ∷ xs) = refl

is_nil-append : {A : Type 0} (xs ys : List A) → is_nil (xs ++ ys) ≡ (is_nil xs && is_nil ys)
is_nil-append [] ys = refl
is_nil-append (x ∷ xs) ys = refl

is_nil-section_summary :
    (kind : Str) (d : SectionDiff) → is_nil (section_summary kind d) ≡ section_is_empty d
unfolding section_summary section_is_empty
is_nil-section_summary kind d = simp (is_nil-append, is_nil-map) (ground arith)

-- The summary is empty exactly when the diff is.
is_empty-summary :
    (old new : ContractSpec) → is_nil (between old new).summary ≡ is_empty (between old new)
unfolding between assemble build_summary is_empty
is_empty-summary old new = simp (is_nil-append, is_nil-section_summary)
