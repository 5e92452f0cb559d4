-- ===== src/Poller/Fetch/Complete.antt =====
-- When the loop over the pages stores every event, and when it stops early.
use lumenqraph.Base.{
  ℕ, suc, ◌≤◌, ◌<◌, ◌≡◌, refl, Bool, true, false, ◌||◌, Option, none, some, List, [], ◌∷◌, ◌++◌, In,
  here, there, length, ltb, arith,
}
use lumenqraph.Base.Str.{Str}
use lumenqraph.Base.Result.{Result, ok}
use lumenqraph.Poller.Fetch.{EventsPage, Stored, is_none, convert, insert_page, fetch_loop}

module _ {E N : Type 0} (to_new_event : E → Option N) where
  -- An event that can be converted.
  abbrev pub Converts : E → Type 0
  Converts e = (n : N) × (to_new_event e ≡ some n)

  length-convert-le : (es : List E) → length (convert to_new_event es) ≤ length es
  unfolding convert
  length-convert-le [] = omega arith
  length-convert-le (e ∷ es) = ground (arith, length-convert-le es)

  -- One event that cannot be converted makes the batch shorter than the page.
  length-convert-lt :
      {e : E} (es : List E)
      → In e es
      → to_new_event e ≡ none
      → length (convert to_new_event es) < length es
  unfolding convert
  length-convert-lt [] m p = elim m [ ]
  length-convert-lt (e ∷ es) here p = ground (arith, p, length-convert-le es)
  length-convert-lt (x ∷ es) (there m) p = ground (arith, length-convert-lt es m p)

module _ {E N T : Type 0} (ledger : E → ℕ) (to_new_event : E → Option N)
    (get_events : Option T → Result Str (EventsPage E T)) (is_cancelled : ℕ → Bool)
    (page_size tip : ℕ) where
  -- What the server has from a token on, and in how many pages: full ones that lead on, and a last
  -- one that leads nowhere.
  pub data Served : Option T → List E → ℕ → Type 0 where
    last_page :
        {token : Option T} {events : List E}
        → get_events token ≡ ok (record { events = events; cursor = none })
        → Served token events 1
    full_page :
        {token : Option T} {events rest : List E} {next : T} {pages : ℕ}
        → get_events token ≡ ok (record { events = events; cursor = some next })
        → length events ≡ page_size
        → Served (some next) rest pages
        → Served token (events ++ rest) (suc pages)

  loop-last :
      (fuel : ℕ) (token : Option T) (k seen : ℕ) (st : Stored N) (page : EventsPage E T)
      → is_cancelled k ≡ false
      → get_events token ≡ ok page
      → (ltb (length (convert to_new_event page.events)) page_size || is_none page.cursor) ≡ true
      → fetch_loop ledger to_new_event get_events is_cancelled page_size tip
          (suc fuel)
          token
          k
          seen
          st
        ≡ some (ok (insert_page to_new_event page.events st))
  unfolding fetch_loop
  loop-last fuel token k seen st page on e stop = rw (fetch_loop, on, e, stop) refl

  -- Unless a shutdown came, a full page with an event that cannot be converted ends the loop,
  -- although the server has a next page: the loop succeeds with the page, and records nothing as missed.
  pub fetch_loop-skipped :
      {token : Option T} {events : List E} {next : T} {e : E}
      → get_events token ≡ ok (record { events = events; cursor = some next })
      → length events ≡ page_size
      → In e events
      → to_new_event e ≡ none
      → (fuel page_count last_seen : ℕ) (st : Stored N) → is_cancelled page_count ≡ false
      → fetch_loop ledger to_new_event get_events is_cancelled page_size tip
          (suc fuel)
          token
          page_count
          last_seen
          st
        ≡ some (ok (record st { inserted = st.inserted ++ convert to_new_event events }))
  unfolding insert_page
  fetch_loop-skipped {token} {events} page full m none_new fuel k seen st on =
      loop-last fuel token k seen st _ on page
        (ground (arith, full, length-convert-lt to_new_event events m none_new))
