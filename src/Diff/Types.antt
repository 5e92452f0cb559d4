-- ===== src/Diff/Types.antt =====
-- The result types of diff.rs, and the methods of `SectionDiff`.
use lumenqraph.Base.{Bool, not, ◌&&◌, ◌||◌, List, [], is_nil, if◌then◌else◌}
use lumenqraph.Base.Str.{Str}

-- In the order `additive < potentially_breaking < breaking`.
pub data Severity : Type 0 where
  additive potentially_breaking breaking : Severity

-- `Ord::max` of the derived order.
unfoldable pub severity_max : Severity → Severity → Severity
severity_max additive t = t
severity_max potentially_breaking additive = potentially_breaking
severity_max potentially_breaking t = t
severity_max breaking t = breaking

pub record ChangedItem : Type 0 where
  pub name : Str
  pub from : Str
  pub to : Str
  pub severity : Severity

pub record ReorderedItem : Type 0 where
  pub name : Str
  pub from : Str
  pub to : Str
  pub severity : Severity

pub record PotentiallyBreakingItem : Type 0 where
  pub name : Str
  pub from : Str
  pub to : Str
  pub severity : Severity
  pub description : Str

pub record SectionDiff : Type 0 where
  pub added : List Str
  pub removed : List Str
  pub changed : List ChangedItem
  pub reordered : List ReorderedItem
  pub potentially_breaking : List PotentiallyBreakingItem

-- `SectionDiff::default()`.
abbrev pub empty_section : SectionDiff
empty_section = record {
  added = [];
  removed = [];
  changed = [];
  reordered = [];
  potentially_breaking = [];
}

-- `SectionDiff::is_empty`.
unfoldable pub section_is_empty : SectionDiff → Bool
section_is_empty d =
    is_nil d.added
    && is_nil d.removed
    && is_nil d.changed
    && is_nil d.reordered
    && is_nil d.potentially_breaking

-- `SectionDiff::has_breaking`.
unfoldable pub has_breaking : SectionDiff → Bool
has_breaking d = not (is_nil d.removed) || not (is_nil d.changed) || not (is_nil d.reordered)

-- `SectionDiff::max_severity`.
unfoldable pub max_severity : SectionDiff → Severity
max_severity d =
    if not (is_nil d.removed) || not (is_nil d.changed) || not (is_nil d.reordered)
    then breaking
    else if not (is_nil d.potentially_breaking)
    then potentially_breaking
    else additive

pub record SpecDiff : Type 0 where
  pub breaking : Bool
  pub max_severity : Severity
  pub summary : List Str
  pub functions : SectionDiff
  pub events : SectionDiff
  pub types : SectionDiff
