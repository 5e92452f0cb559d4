-- ===== src/Diff/Examples.antt =====
-- Concrete interfaces, and the theorems at them.
use lumenqraph.Base.{
  ℕ, ◌+◌, ◌<◌, ◌≡◌, ◌≢◌, ◌↔◌, ◌⊎◌, refl, Bool, true, false, Option, none, some, List, [], ◌∷◌, ◌++◌,
  length, drop, is_nil, In, here, arith, if◌then◌else◌,
}
use lumenqraph.Base.Str.{Str, lit, str_eq, eq_of_str_eq}
use lumenqraph.Base.Maps.{Map, get}
use lumenqraph.Spec.{EventParam, EventSpec, UnionCase, ContractSpec}
use lumenqraph.Diff.Types.{
  SectionDiff, ChangedItem, ReorderedItem, PotentiallyBreakingItem, breaking, potentially_breaking,
}
use lumenqraph.Diff.{between, is_empty}
use lumenqraph.Diff.Sections.{is_param_reorder, reordered_params, diff_section_with_params}
use lumenqraph.Diff.Reclassify.{
  map_event_added_fields, appended_cases, same_case, find_event, reclassify, diff_events,
}
use lumenqraph.Diff.Reported.{added_iff}
use lumenqraph.Diff.Moved.{moved_item}
use lumenqraph.Diff.Events.{IsAddition, events_potentially_breaking}

-- `a` is dropped, `b` changes, `c` has its parameters swapped, `d` is new.
abbrev old_map : Map Str
old_map = (lit "a", lit "a()") ∷ (lit "b", lit "b(u32)") ∷ (lit "c", lit "c(x: u32, y: u32)") ∷ []

abbrev new_map : Map Str
new_map = (lit "b", lit "b(u64)") ∷ (lit "c", lit "c(y: u32, x: u32)") ∷ (lit "d", lit "d()") ∷ []

abbrev old_params : Map (List Str)
old_params = (lit "c", lit "x: u32" ∷ lit "y: u32" ∷ []) ∷ []

abbrev new_params : Map (List Str)
new_params = (lit "c", lit "y: u32" ∷ lit "x: u32" ∷ []) ∷ []

abbrev example : SectionDiff
example = diff_section_with_params old_map new_map old_params new_params

added_iff_example :
    In (lit "d()") example.added
    ↔ ((n : Str) × (get old_map n ≡ none) × (get new_map n ≡ some (lit "d()")))
added_iff_example = added_iff old_map new_map old_params new_params (lit "d()")

abbrev b_item : ChangedItem
b_item = record { name = lit "b"; from = lit "b(u32)"; to = lit "b(u64)"; severity = breaking }

abbrev c_item : ReorderedItem
c_item = record {
  name = lit "c";
  from = lit "c(x: u32, y: u32)";
  to = lit "c(y: u32, x: u32)";
  severity = breaking;
}

-- An event, and the same one with a second field in its data.
abbrev amount : EventParam
amount = record { name = lit "amount"; type_name = lit "i128"; location = lit "data" }

abbrev memo : EventParam
memo = record { name = lit "memo"; type_name = lit "String"; location = lit "data" }

abbrev transfer : EventSpec
transfer = record {
  name = lit "transfer";
  prefix_topics = [];
  params = amount ∷ [];
  data_format = lit "map";
}

abbrev transfer_memo : EventSpec
transfer_memo = record {
  name = lit "transfer";
  params = amount ∷ memo ∷ [];
  prefix_topics = [];
  data_format = lit "map";
}

abbrev with_events : List EventSpec → ContractSpec
with_events events = record {
  functions = [];
  events = events;
  structs = [];
  unions = [];
  enums = [];
  errors = [];
}

abbrev old_spec : ContractSpec
old_spec = with_events (transfer ∷ [])

abbrev new_spec : ContractSpec
new_spec = with_events (transfer_memo ∷ [])

-- The new field is described.
memo_added : map_event_added_fields transfer transfer_memo ≡ some (lit "added field(s) memo")
unfolding map_event_added_fields str_eq lumenqraph.Diff.Reclassify.eq_ignore_case
    lumenqraph.Diff.Reclassify.zip_all lumenqraph.Diff.Reclassify.same_param lumenqraph.Base.any
    lumenqraph.Diff.Reclassify.added_name lumenqraph.Base.Str.join
memo_added = refl

-- A union, and the same one with a second case.
abbrev unit_case : UnionCase
unit_case = record { name = lit "None"; type_names = [] }

abbrev more_case : UnionCase
more_case = record { name = lit "Some"; type_names = lit "u32" ∷ [] }

case_added :
    appended_cases same_case (λ c. c.name) (unit_case ∷ []) (unit_case ∷ more_case ∷ [])
    ≡ some (lit "added case(s) Some")
unfolding appended_cases same_case str_eq lumenqraph.Diff.Reclassify.zip_all
    lumenqraph.Base.Str.strs_eq lumenqraph.Base.Str.join
case_added = refl

abbrev transfer_item : PotentiallyBreakingItem
transfer_item = record {
  name = lit "transfer";
  from = lit "transfer(amount: i128 @data) [map]";
  to = lit "transfer(amount: i128 @data, memo: String @data) [map]";
  severity = potentially_breaking;
  description = lit "added field(s) memo";
}

transfer_moved : In transfer_item (diff_events old_spec new_spec).potentially_breaking
unfolding map_event_added_fields str_eq lumenqraph.Diff.Reclassify.eq_ignore_case
    lumenqraph.Diff.Reclassify.zip_all lumenqraph.Diff.Reclassify.same_param lumenqraph.Base.any
    lumenqraph.Diff.Reclassify.added_name lumenqraph.Base.Str.join diff_events reclassify
    lumenqraph.Diff.Reclassify.reclassify_loop lumenqraph.Diff.Sections.diff_section
    diff_section_with_params lumenqraph.Diff.Sections.diff_names lumenqraph.Diff.Sections.names
    lumenqraph.Base.Maps.keys lumenqraph.Diff.Sections.collect lumenqraph.Diff.Render.event_sigs
    lumenqraph.Base.Maps.insert lumenqraph.Diff.Sections.push_name get
    lumenqraph.Diff.Render.event_sig lumenqraph.Diff.Render.render_event_param
    lumenqraph.Diff.Sections.push_moved reordered_params lumenqraph.Base.Str.str_ltb
    lumenqraph.Diff.Reclassify.describe_event find_event lumenqraph.Diff.Reclassify.push_changed
transfer_moved = here

events_potentially_breaking_example : IsAddition old_spec new_spec transfer_item
events_potentially_breaking_example =
    events_potentially_breaking old_spec new_spec transfer_item transfer_moved

-- A description of the one name "b".
abbrev describe_b : Str → Option Str
describe_b name = if str_eq name (lit "b") then some (lit "more") else none

abbrev b_moved : PotentiallyBreakingItem
b_moved = moved_item b_item (lit "more")
