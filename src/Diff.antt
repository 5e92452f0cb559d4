-- ===== src/Diff.antt =====
-- crates/lumenqraph-core/src/diff.rs: the semantic diff of two versions of a contract's interface.
-- `Diff` has the results, `Diff.Sections` the comparison of two maps of signatures, `Diff.Render`
-- the rendered signatures, and `Diff.Reclassify` the additive changes of events and types.
mod Examples
pub mod Types
pub mod Sections
pub mod Render
pub mod Reclassify
pub mod Reported
pub mod Severities
pub mod Unchanged
pub mod Additive
pub mod Moved
pub mod Events
pub mod Reorders
use Types.{
  SectionDiff, ChangedItem, ReorderedItem, PotentiallyBreakingItem, SpecDiff, section_is_empty,
  has_breaking, max_severity, severity_max,
}
use lumenqraph.Base.{Bool, ◌&&◌, ◌||◌, List, [], ◌++◌, map}
use lumenqraph.Base.Str.{Str, lit}
use lumenqraph.Spec.{ContractSpec}
use Sections.{diff_section_with_params}
use Render.{function_sigs, function_params}
use Reclassify.{diff_events, diff_types}

-- The lines of `build_summary` for one section.
unfoldable pub section_summary : Str → SectionDiff → List Str
section_summary kind d =
    map (λ (sig : Str). lit "removed " ++ kind ++ lit " " ++ sig) d.removed
    ++ map
        (λ (i : ChangedItem).
          lit "changed "
          ++ kind
          ++ lit " "
          ++ i.name
          ++ lit ": "
          ++ i.from
          ++ lit " became "
          ++ i.to)
        d.changed
    ++ map
        (λ (i : ReorderedItem).
          lit "reordered "
          ++ kind
          ++ lit " "
          ++ i.name
          ++ lit ": "
          ++ i.from
          ++ lit " became "
          ++ i.to)
        d.reordered
    ++ map
        (λ (i : PotentiallyBreakingItem).
          lit "potentially breaking " ++ kind ++ lit " " ++ i.name ++ lit ": " ++ i.description)
        d.potentially_breaking
    ++ map (λ (sig : Str). lit "added " ++ kind ++ lit " " ++ sig) d.added

unfoldable pub build_summary : SectionDiff → SectionDiff → SectionDiff → List Str
build_summary functions events types =
    section_summary (lit "function") functions
    ++ section_summary (lit "event") events
    ++ section_summary (lit "type") types

-- What `between` makes of the three sections.
unfoldable pub assemble : SectionDiff → SectionDiff → SectionDiff → SpecDiff
assemble functions events types = record {
  breaking = has_breaking functions || has_breaking events || has_breaking types;
  max_severity =
      severity_max (severity_max (max_severity functions) (max_severity events))
        (max_severity types);
  summary = build_summary functions events types;
  functions = functions;
  events = events;
  types = types;
}

unfoldable pub diff_functions : ContractSpec → ContractSpec → SectionDiff
diff_functions old new =
    diff_section_with_params (function_sigs old.functions []) (function_sigs new.functions [])
      (function_params old.functions []) (function_params new.functions [])

unfoldable pub between : ContractSpec → ContractSpec → SpecDiff
between old new = assemble (diff_functions old new) (diff_events old new) (diff_types old new)

-- `SpecDiff::is_empty`.
unfoldable pub is_empty : SpecDiff → Bool
is_empty d = section_is_empty d.functions && section_is_empty d.events && section_is_empty d.types
