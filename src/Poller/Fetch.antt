-- ===== src/Poller/Fetch.antt =====
-- `fetch_and_store_with_shutdown` of crates/lumenqraph-indexer/src/poller.rs: the loop over the pages of
-- events. The RPC server, the conversion of an event and the shutdown are parameters, and the
-- database answers. The snapshots of the contracts that were seen are left out.
pub mod Complete
use lumenqraph.Base.{
  ℕ, zero, suc, ◌+◌, max, Bool, true, false, ◌||◌, Option, none, some, List, [], ◌∷◌, ◌++◌, length,
  ltb, if◌then◌else◌,
}
use lumenqraph.Base.Str.{Str}
use lumenqraph.Base.Result.{Result, ok, err}
use lumenqraph.Poller.{MissedRange}

-- The answer to `getEvents`.
pub record EventsPage (E T : Type 0) : Type 0 where
  pub events : List E
  pub cursor : Option T

-- What the database has of the cycle: the events that were handed to `insert_events`, the recorded
-- ranges, and the counter of errors.
pub record Stored (N : Type 0) : Type 0 where
  pub inserted : List N
  pub missed : List MissedRange
  pub errors : ℕ

abbrev pub is_none {ℓ} : {A : Type ℓ} → Option A → Bool
is_none none = true
is_none (some a) = false

-- The events of a page that can be converted.
unfoldable pub convert : {E N : Type 0} → (E → Option N) → List E → List N
convert to_new_event [] = []
convert to_new_event (e ∷ es) =
    let rest = convert to_new_event es in elim (to_new_event e) [ none ↦ rest | some n ↦ n ∷ rest ]

unfoldable pub last_ledger : {E : Type 0} → (E → ℕ) → ℕ → List E → ℕ
last_ledger ledger last_seen [] = last_seen
last_ledger ledger last_seen (e ∷ es) = last_ledger ledger (max last_seen (ledger e)) es

-- An error of the server: on the first page it is returned, later the rest of the range is
-- recorded as missed.
unfoldable pub fetch_failed : {N : Type 0} → ℕ → Str → ℕ → ℕ → Stored N → Result Str (Stored N)
fetch_failed tip error page_count last_seen st =
    if ltb 0 page_count
    then ok (record st {
      missed =
          st.missed
          ++ (record {
            from_ledger = last_seen;
            to_ledger = tip;
            reason = error;
            recoverable = true;
          })
            ∷ [];
      errors = st.errors + 1;
    })
    else err error

unfoldable pub insert_page : {E N : Type 0} → (E → Option N) → List E → Stored N → Stored N
insert_page to_new_event events st = record st {
  inserted = st.inserted ++ convert to_new_event events;
}

module _ {E N T : Type 0} (ledger : E → ℕ) (to_new_event : E → Option N)
    (get_events : Option T → Result Str (EventsPage E T)) (is_cancelled : ℕ → Bool)
    (page_size tip : ℕ) where
  -- The loop, for a number of pages; `none` is for more pages than that.
  unfoldable pub fetch_loop : ℕ → Option T → ℕ → ℕ → Stored N → Option (Result Str (Stored N))
  fetch_loop zero token page_count last_seen st = none
  fetch_loop (suc fuel) token page_count last_seen st =
      if is_cancelled page_count then some (ok st) else elim (get_events token) [
        | err e ↦ some (fetch_failed tip e page_count last_seen st)
        | ok page ↦
            let rest =
              fetch_loop fuel page.cursor (page_count + 1)
                (last_ledger ledger last_seen page.events)
                (insert_page to_new_event page.events st) in
            if ltb (length (convert to_new_event page.events)) page_size || is_none page.cursor
            then some (ok (insert_page to_new_event page.events st))
            else rest
      ]
