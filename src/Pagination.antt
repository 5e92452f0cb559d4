-- ===== src/Pagination.antt =====
-- crates/lumenqraph-api/src/pagination.rs: the opaque cursors, the page request and its answer.
-- The base64 engines are parameters.
mod Examples
pub mod Cursors
pub mod Pages
pub mod Walk
use lumenqraph.Base.{
  ℕ, zero, suc, ◌+◌, ◌-◌, ◌*◌, ◌^◌, ◌≡◌, Bool, true, false, not, ◌&&◌, ◌||◌, Option, none, some,
  List, [], ◌∷◌, ◌++◌, length, take, ltb, leb, ◌==◌, if◌then◌else◌,
}
use lumenqraph.Base.Int.{ℤ, pos, negsuc, ltb_ℤ}
use lumenqraph.Base.Str.{Str, lit}
use lumenqraph.Base.Decimal.{decimal, decimal_ℤ, parse_i64}
use lumenqraph.Base.Result.{Result, ok, err, ok_or, ◌>>=◌}
use lumenqraph.Base.Utf8.{is_utf8}

abbrev pub max_offset : ℤ
max_offset = pos 10_000

-- The two engines of the code: URL-safe without padding, and standard.
pub record Base64 : Type 0 where
  pub url_safe_encode : Str → Str
  pub url_safe_decode : Str → Option Str
  pub standard_decode : Str → Option Str

abbrev invalid_cursor : Str
invalid_cursor = lit "invalid cursor"

-- `String::from_utf8`.
unfoldable pub from_utf8 : Str → Option Str
from_utf8 bytes = if is_utf8 bytes then some bytes else none

-- `or_else` of the first decoding.
unfoldable pub or_else {ℓ} : {A : Type ℓ} → Option A → Option A → Option A
or_else none b = b
or_else (some a) b = some a

-- `str::split_once` at a character below 128.
unfoldable pub split_once : ℕ → Str → Option (Str × Str)
split_once c [] = none
split_once c (x ∷ xs) =
    let rest = split_once c xs in
    if x == c then some ([], xs) else elim rest [ none ↦ none | some (a, b) ↦ some (x ∷ a, b) ]

module _ (base64 : Base64) where
  unfoldable pub encode_payload : Str → Str
  encode_payload payload = base64.url_safe_encode payload

  unfoldable pub decode_payload : Str → Result Str Str
  decode_payload raw = do
    bytes ← ok_or invalid_cursor (or_else (base64.url_safe_decode raw) (base64.standard_decode raw))
    ok_or invalid_cursor (from_utf8 bytes)

  -- `encode_contract_cursor` and `encode_contract_count_cursor` have the same body.
  unfoldable pub encode_cursor : ℤ → Str → Str
  encode_cursor ledger event_id = encode_payload (decimal_ℤ ledger ++ b'|' ∷ event_id)

  -- What `decode_cursor` does with a cursor that is there.
  unfoldable pub decode_position : Str → Result Str (ℤ × Str)
  decode_position raw = do
    s ← decode_payload raw
    parts ← ok_or invalid_cursor (split_once b'|' s)
    ledger ← ok_or invalid_cursor (parse_i64 parts.0)
    ok (ledger, parts.1)

  unfoldable pub decode_cursor : Option Str → Result Str (Option (ℤ × Str))
  decode_cursor none = ok none
  decode_cursor (some raw) = do position ← decode_position raw; ok (some position)

-- The trait `Cursor`.
pub record Cursor (C : Type 0) : Type 0 where
  pub encode : C → Str
  pub decode : Str → Result Str C

pub record LedgerCursor : Type 0 where
  pub ledger : ℤ
  pub event_id : Str

pub record IdCursor : Type 0 where
  pub id : ℤ

module _ (base64 : Base64) where
  unfoldable pub decode_ledger : Str → Result Str LedgerCursor
  decode_ledger raw = do
    position ← decode_cursor base64 (some raw)
    found ← ok_or invalid_cursor position
    ok (record { ledger = found.0; event_id = found.1 })

  abbrev pub ledger_cursor : Cursor LedgerCursor
  ledger_cursor = record {
    encode = λ c. encode_cursor base64 c.ledger c.event_id;
    decode = decode_ledger;
  }

  unfoldable pub decode_id : Str → Result Str IdCursor
  decode_id raw = do
    s ← decode_payload base64 raw
    id ← ok_or invalid_cursor (parse_i64 s)
    ok (record { id = id })

  abbrev pub id_cursor : Cursor IdCursor
  id_cursor = record { encode = λ c. encode_payload base64 (decimal_ℤ c.id); decode = decode_id }

-- The errors that a page request is refused with.
pub data ApiError : Type 0 where
  bad_request : Str → ApiError

pub record PageRequest (C : Type 0) : Type 0 where
  pub limit : ℤ
  pub offset : ℤ
  pub after : Option C

pub record Page (T : Type 0) : Type 0 where
  pub data_rows : List T
  pub has_more : Bool
  pub next_cursor : Option Str
  pub offset_deprecated : Bool

-- `i64::clamp`, which panics (`none`) if the bounds are the wrong way round.
unfoldable pub clamp : ℤ → ℤ → ℤ → Option ℤ
clamp x lo hi =
    if ltb_ℤ hi lo then none else some (if ltb_ℤ x lo then lo else if ltb_ℤ hi x then hi else x)

-- `x as usize` for an `i64`.
abbrev pub as_usize : ℤ → ℕ
as_usize (pos n) = n
as_usize (negsuc n) = 2 ^ 64 - 1 - n

-- `x + 1` for an `i64`, wrapping.
abbrev pub plus_one : ℤ → ℤ
plus_one (pos n) = if n + 1 == 2 ^ 63 then negsuc (2 ^ 63 - 1) else pos (n + 1)
plus_one (negsuc zero) = pos 0
plus_one (negsuc (suc n)) = negsuc n

-- `rows.last()`.
unfoldable pub last {ℓ} : {A : Type ℓ} → List A → Option A
last [] = none
last (x ∷ []) = some x
last (x ∷ y ∷ xs) = last (y ∷ xs)

abbrev pub is_some {ℓ} : {A : Type ℓ} → Option A → Bool
is_some none = false
is_some (some a) = true

module _ {C : Type 0} (cursor : Cursor C) where
  unfoldable pub decode_after : Option Str → Result ApiError (Option C)
  decode_after none = ok none
  decode_after (some raw) = elim (cursor.decode raw) [
    | ok c ↦ ok (some c)
    | err e ↦ err (bad_request (lit "invalid cursor: " ++ e))
  ]

  -- What follows the decoding of the cursor, for a clamped limit.
  unfoldable pub checked : ℤ → ℤ → Option C → Result ApiError (PageRequest C)
  checked limit offset after =
      let offset' =
        (if is_some after then pos 0 else if ltb_ℤ offset (pos 0) then pos 0 else offset) in
      if ltb_ℤ max_offset offset'
      then err (
          bad_request (
            lit "offset pagination is limited to "
            ++ decimal_ℤ max_offset
            ++ lit
                " rows. For deeper pages, use cursor pagination with the 'after' parameter (see API documentation)."))
      else ok (record { limit = limit; offset = offset'; after = after })

  -- `PageRequest::parse`; `none` is the panic of `clamp`.
  unfoldable pub parse : ℤ → ℤ → ℤ → Option Str → Option (Result ApiError (PageRequest C))
  parse limit max_limit offset after = elim (clamp limit (pos 1) max_limit) [
    | none ↦ none
    | some clamped ↦ some (decode_after after >>= checked clamped offset)
  ]

  unfoldable pub fetch_limit : PageRequest C → ℤ
  fetch_limit r = plus_one r.limit

  unfoldable pub uses_offset : PageRequest C → Bool
  uses_offset r = not (is_some r.after) && ltb_ℤ (pos 0) r.offset

  -- `rows.last().map(…)`.
  unfoldable pub cursor_after : {T : Type 0} → (T → C) → Option T → Option Str
  cursor_after cursor_of none = none
  cursor_after cursor_of (some r) = some (cursor.encode (cursor_of r))

  unfoldable pub finish : {T : Type 0} → PageRequest C → List T → (T → C) → Page T
  finish r rows cursor_of =
      let has_more = ltb_ℤ r.limit (pos (length rows)) in
      let rows' = (if has_more then take (as_usize r.limit) rows else rows) in
      record {
        data_rows = rows';
        has_more = has_more;
        next_cursor = if has_more then cursor_after cursor_of (last rows') else none;
        offset_deprecated = uses_offset r;
      }
