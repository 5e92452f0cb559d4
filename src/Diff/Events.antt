-- ===== src/Diff/Events.antt =====
-- Which events are reported as potentially breaking.
use lumenqraph.Base.{
  ◌≡◌, refl, ◌∙◌, ◌⊎◌, inl, inr, arith, Bool, true, false, Option, none, some, List, [], ◌∷◌, ◌++◌,
  In, map, drop, length, Bool-cases, sym, if◌then◌else◌,
}
use lumenqraph.Base.Str.{Str, lit, join, str_eq}
use lumenqraph.Spec.{EventSpec, ContractSpec}
use lumenqraph.Base.Maps.{Map, get, insert, get-insert}
use lumenqraph.Diff.Types.{SectionDiff, ChangedItem, PotentiallyBreakingItem, empty_section}
use lumenqraph.Diff.Sections.{
  push_name, push_moved, names, diff_names, diff_section, diff_section_with_params,
}
use lumenqraph.Diff.Reclassify.{
  describe_event, find_event, map_event_added_fields, added_name, ◌>>=◌, diff_events,
}
use lumenqraph.Diff.Render.{event_sig, event_sigs}
use lumenqraph.Diff.Reported.{changed_iff}
use lumenqraph.Diff.Additive.{IsExtended, added_fields-IsExtended, added_fields-description}
use lumenqraph.Diff.Moved.{moved_item, HasMoved, reclassify-moved}

-- The last event of a name, whose signature is the one that is compared.
abbrev pub last_event : Str → List EventSpec → Option EventSpec
last_event name [] = none
last_event name (e ∷ es) = elim (last_event name es) [
  | some later ↦ some later
  | none ↦ if str_eq e.name name then some e else none
]

-- A reported event: the first one of its name in each interface has the added fields, and the last
-- one of its name in each has the signature that is reported.
pub record IsAddition (old new : ContractSpec) (p : PotentiallyBreakingItem) : Type 0 where
  pub before : EventSpec
  pub after : EventSpec
  pub of_old : find_event p.name old.events ≡ some before
  pub of_new : find_event p.name new.events ≡ some after
  pub extended : IsExtended before after
  pub description :
      p.description
      ≡ lit "added field(s) "
        ++ join (lit ", ") (map added_name (drop (length before.params) after.params))
  pub last_old : EventSpec
  pub last_new : EventSpec
  pub is_last_old : last_event p.name old.events ≡ some last_old
  pub is_last_new : last_event p.name new.events ≡ some last_new
  pub from : p.from ≡ event_sig last_old
  pub to : p.to ≡ event_sig last_new

event_sigs-get :
    (es : List EventSpec) (m : Map Str) (name : Str)
    → get (event_sigs es m) name
      ≡ elim (last_event name es) [ some e ↦ some (event_sig e) | none ↦ get m name ]
unfolding event_sigs
event_sigs-get [] m name = refl
event_sigs-get (e ∷ es) m name =
    event_sigs-get es (insert e.name (event_sig e) m) name ∙ later (last_event name es) refl
  where
    later :
        (o : Option EventSpec)
        → last_event name es ≡ o
        → (elim o [ some f ↦ some (event_sig f) | none ↦ get (insert e.name (event_sig e) m) name ])
          ≡ elim (last_event name (e ∷ es)) [ some f ↦ some (event_sig f) | none ↦ get m name ]
    later (some f) q = rw q refl
    later none q =
        rw (q, get-insert e.name name (event_sig e) m)
          (elim (Bool-cases (str_eq e.name name)) [
            | inl same ↦ rw same refl
            | inr other ↦ rw other refl
          ])

-- Where a signature comes from.
event_sigs-last :
    (es : List EventSpec) (name sig : Str)
    → get (event_sigs es []) name ≡ some sig
    → (e : EventSpec) × (last_event name es ≡ some e) × (sig ≡ event_sig e)
unfolding get
event_sigs-last es name sig h =
    found (last_event name es) refl (sym (event_sigs-get es [] name) ∙ h)
  where
    found :
        (o : Option EventSpec)
        → last_event name es ≡ o
        → (elim (last_event name es) [ some e ↦ some (event_sig e) | none ↦ get [] name ])
          ≡ some sig
        → (e : EventSpec) × (last_event name es ≡ some e) × (sig ≡ event_sig e)
    found (some e) q k = let x = rw q at k in (e, q, cc x)
    found none q k = let x = rw q at k in cc x

-- What makes an entry of `changed` an addition, from the two events that are found.
describe-IsAddition :
    (old new : ContractSpec) (item : ChangedItem) {t : Str}
    → get (event_sigs old.events []) item.name ≡ some item.from
    → get (event_sigs new.events []) item.name ≡ some item.to
    → (b a : Option EventSpec) → find_event item.name old.events ≡ b
    → find_event item.name new.events ≡ a
    → (do before ← b; after ← a; map_event_added_fields before after) ≡ some t
    → IsAddition old new (moved_item item t)
describe-IsAddition old new item p q none a f g h = cc h
describe-IsAddition old new item p q (some before) none f g h = cc h
describe-IsAddition old new item p q (some before) (some after) f g h =
    let (last_old, l, m) = event_sigs-last old.events item.name item.from p in
    let (last_new, k, n) = event_sigs-last new.events item.name item.to q in
    record {
      before = before;
      after = after;
      of_old = f;
      of_new = g;
      extended = added_fields-IsExtended before after h;
      description = added_fields-description before after h;
      last_old = last_old;
      last_new = last_new;
      is_last_old = l;
      is_last_new = k;
      from = m;
      to = n;
    }

push_name-moved :
    (r : Bool) (n : Str) (o w : Option Str) (d : SectionDiff)
    → (push_name r n o w d).potentially_breaking ≡ d.potentially_breaking
unfolding push_name push_moved
push_name-moved true n (some b) (some a) d = ground arith
push_name-moved false n (some b) (some a) d = ground arith
push_name-moved r n (some b) none d = refl
push_name-moved r n none (some a) d = refl
push_name-moved r n none none d = refl

diff_names-moved :
    (old new : Map Str) (op np : Map (List Str)) (ns : List Str) (d : SectionDiff)
    → (diff_names old new op np ns d).potentially_breaking ≡ d.potentially_breaking
unfolding diff_names
diff_names-moved old new op np [] d = refl
diff_names-moved old new op np (n ∷ ns) d =
    diff_names-moved old new op np ns _ ∙ push_name-moved _ n (get old n) (get new n) d

start-empty : (old new : Map Str) → (diff_section old new).potentially_breaking ≡ []
unfolding diff_section diff_section_with_params
start-empty old new = diff_names-moved old new [] [] (names old new) empty_section

-- A changed event, with its two signatures.
changed-sigs :
    (old new : Map Str) (item : ChangedItem)
    → In item (diff_section old new).changed
    → (get old item.name ≡ some item.from) × (get new item.name ≡ some item.to)
unfolding diff_section
changed-sigs old new item m =
    let (n, b, a, p, q, r, ne, e) = (changed_iff old new [] [] item).0 m in rw e (p, q)

-- An event is reported as potentially breaking only if its name stands in both interfaces, and, of
-- the first events of that name, both have a map as their data, the new one is the old one with
-- more parameters, all in its data, and the description names these. The signatures that are
-- reported are those of the last events of the name.
pub events_potentially_breaking :
    (old new : ContractSpec) (p : PotentiallyBreakingItem)
    → In p (diff_events old new).potentially_breaking
    → IsAddition old new p
unfolding diff_events describe_event
events_potentially_breaking old new p m = decide (
    (reclassify-moved (describe_event old new)
        (diff_section (event_sigs old.events []) (event_sigs new.events [])) p).0
      m)
  where
    decide :
        In p
            (diff_section
              (event_sigs old.events [])
              (event_sigs new.events [])).potentially_breaking
          ⊎ HasMoved
              (describe_event old new)
              (diff_section (event_sigs old.events []) (event_sigs new.events []))
              p
        → IsAddition old new p
    decide (inl l) = elim (rw start-empty at l) [ ]
    decide (inr (item, t, i, e, q)) =
        let (f, g) = changed-sigs (event_sigs old.events []) (event_sigs new.events []) item i in
        rw q (describe-IsAddition old new item f g _ _ refl refl e)
