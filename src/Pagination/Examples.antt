-- ===== src/Pagination/Examples.antt =====
-- A small table, and the theorems at it.
use lumenqraph.Base.{
  ℕ, suc, ◌+◌, ◌^◌, ◌≤◌, ◌<◌, ◌≡◌, ◌≢◌, ◌↔◌, ◌⊎◌, refl, ap, ◌∙◌, Bool, true, false, Option, none,
  some, List, [], ◌∷◌, ◌++◌, In, here, there, In-one, length, length-append, take, arith,
  if◌then◌else◌,
}
use lumenqraph.Base.Int.{ℤ, pos, ltb_ℤ, ◌≤ℤ◌}
use lumenqraph.Base.Str.{Str, lit}
use lumenqraph.Base.Decimal.{decimal_ℤ}
use lumenqraph.Base.Result.{ok}
use lumenqraph.Base.Utf8.{is_utf8}
use lumenqraph.Pagination.{
  Base64, Cursor, LedgerCursor, IdCursor, PageRequest, Page, decode_cursor, ledger_cursor,
  id_cursor, decode_after, parse, fetch_limit, as_usize, finish, is_some, max_offset,
}
use lumenqraph.Pagination.Cursors.{cursor_bytes, decode_id-encode}
use lumenqraph.Pagination.Pages.{parse-outcome}
use lumenqraph.Pagination.Walk.{Decodes, Follows, walk, walk_lem}

-- An engine that writes the bytes as they are, and reads no standard alphabet.
abbrev plain : Base64
plain = record {
  url_safe_encode = λ s. s;
  url_safe_decode = λ s. some s;
  standard_decode = λ s. none;
}

abbrev cursor : Cursor IdCursor
cursor = id_cursor plain

abbrev position : LedgerCursor
position = record { ledger = pos 52; event_id = lit "a|b" }

abbrev raw : Str
raw = decimal_ℤ (pos 52) ++ b'|' ∷ lit "a|b"

raw_bytes : cursor_bytes plain raw ≡ some raw
unfolding lumenqraph.Pagination.or_else
raw_bytes = refl

id_is_utf8 : is_utf8 (lit "a|b") ≡ true
unfolding is_utf8 lumenqraph.Base.Utf8.utf8_from
id_is_utf8 = refl

abbrev row_cursor : ℕ → IdCursor
row_cursor r = record { id = pos r }

-- A limit of 500 where 200 is the most.
abbrev request : PageRequest IdCursor
request = record { limit = pos 200; offset = pos 3; after = none }

request-parse : parse cursor (pos 500) (pos 200) (pos 3) none ≡ some (ok request)
unfolding parse decode_after lumenqraph.Pagination.clamp lumenqraph.Pagination.checked
request-parse = refl

no_cursor : decode_after cursor none ≡ ok none
unfolding decode_after
no_cursor = refl

parse-outcome_example :
    ((r : PageRequest IdCursor) × (parse cursor (pos 500) (pos 200) (pos 20_000) none
        ≡ some (ok r)))
    ↔ ((false ≡ true) ⊎ (pos 20_000 ≤ℤ max_offset))
parse-outcome_example =
    parse-outcome cursor (pos 500) (pos 200) (pos 20_000) none none (omega arith) no_cursor

abbrev table : List ℕ
table = 2 ∷ 1 ∷ []

abbrev request_one : PageRequest IdCursor
request_one = record { limit = pos 1; offset = pos 0; after = none }

-- The rows with an id below the cursor's.
abbrev below : ℤ → List ℕ → List ℕ
below id [] = []
below id (r ∷ rs) = if ltb_ℤ (pos r) id then r ∷ below id rs else below id rs

abbrev rows_after : Option IdCursor → List ℕ
rows_after none = table
rows_after (some c) = below c.id table

table-Decodes : (r : ℕ) → In r table → Decodes cursor row_cursor rows_after (pos 1) (pos 9) r
table-Decodes r m = decode_id-encode plain (λ s. refl) (row_cursor r) (row_fits r m)
  where
    row_fits : (r : ℕ) → In r table → r < 2 ^ 63
    row_fits r here = omega arith
    row_fits r (there m) = rw (In-one m) (omega arith)

table-Follows : Follows cursor row_cursor rows_after (pos 1) (pos 9) table
table-Follows [] r back e = ground (arith, e)
table-Follows (x ∷ []) r back e =
    let last_row : r ≡ 1 = ground (arith, e) in
    let no_more : [] ≡ back = ground (arith, e) in
    ap (λ x. rows_after (some (row_cursor x))) last_row ∙ no_more
table-Follows (x ∷ y ∷ front) r back e =
    absurd (omega (arith, ap length e, length-append front (r ∷ back)))

walk_lem_example :
    walk cursor row_cursor rows_after (pos 1) (pos 9) (suc (length table)) none ≡ some table
walk_lem_example =
    walk_lem cursor row_cursor rows_after (pos 1) (pos 9) table table-Decodes table-Follows refl
      (omega arith) (omega arith)
