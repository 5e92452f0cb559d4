-- ===== src/Pagination/Cursors.antt =====
-- The cursors round-trip, in both alphabets, and a cursor that is there is never read as none.
use mathlib.Core.List.{append-nil}
use lumenqraph.Base.{◌≡◌, ◌≢◌, refl, ◌∙◌, true, Option, none, some, [], ◌∷◌, ◌++◌, all, arith}
use lumenqraph.Base.Int.{ℤ}
use lumenqraph.Base.Str.{Str}
use lumenqraph.Base.Decimal.{decimal_ℤ, IsI64, parse_i64-decimal_ℤ, is_numeral, all-decimal_ℤ}
use lumenqraph.Base.Result.{Result, ok, err, ◌>>=◌}
use lumenqraph.Base.Utf8.{is_utf8, is_ascii, is_utf8-append}
use lumenqraph.Pagination.{
  Base64, from_utf8, or_else, split_once, encode_payload, decode_payload, encode_cursor,
  decode_position, decode_cursor, LedgerCursor, IdCursor, decode_ledger, decode_id, ledger_cursor,
  id_cursor,
}

numeral_ascii : (xs : Str) → all is_numeral xs ≡ true → all is_ascii xs ≡ true
unfolding all
numeral_ascii [] h = refl
numeral_ascii (x ∷ xs) h = ground (arith, numeral_ascii xs)

-- The text in front of the first separator has none.
split_once-append :
    (xs ys : Str) → all is_numeral xs ≡ true → split_once b'|' (xs ++ b'|' ∷ ys) ≡ some (xs, ys)
unfolding split_once all
split_once-append [] ys h = refl
split_once-append (x ∷ xs) ys h = ground (arith, split_once-append xs ys)

is_utf8-numeral : (a : ℤ) (ys : Str) → is_utf8 (decimal_ℤ a ++ ys) ≡ is_utf8 ys
is_utf8-numeral a ys =
    is_utf8-append (decimal_ℤ a) ys (numeral_ascii (decimal_ℤ a) (all-decimal_ℤ a))

is_utf8-separator : (ys : Str) → is_utf8 (b'|' ∷ ys) ≡ is_utf8 ys
unfolding all
is_utf8-separator ys = is_utf8-append (b'|' ∷ []) ys refl

module _ (base64 : Base64) where
  -- The bytes of a cursor, in the first alphabet that reads it.
  abbrev pub cursor_bytes : Str → Option Str
  cursor_bytes raw = or_else (base64.url_safe_decode raw) (base64.standard_decode raw)

  decode_payload-bytes :
      (raw bytes : Str)
      → cursor_bytes raw ≡ some bytes
      → is_utf8 bytes ≡ true
      → decode_payload base64 raw ≡ ok bytes
  unfolding decode_payload from_utf8
  decode_payload-bytes raw bytes e u = rw (e, u) refl

  -- A cursor whose bytes, in the first alphabet that reads it, are a ledger that is an `i64`, a
  -- separator and an id that is UTF-8 is read as that position.
  decode_cursor-position :
      (raw event_id : Str) (ledger : ℤ)
      → cursor_bytes raw ≡ some (decimal_ℤ ledger ++ b'|' ∷ event_id)
      → IsI64 ledger
      → is_utf8 event_id ≡ true
      → decode_cursor base64 (some raw) ≡ ok (some (ledger, event_id))
  unfolding decode_cursor decode_position
  decode_cursor-position raw event_id ledger e w u =
      rw
        (
          decode_payload-bytes raw (decimal_ℤ ledger ++ b'|' ∷ event_id) e
              (is_utf8-numeral ledger (b'|' ∷ event_id) ∙ is_utf8-separator event_id ∙ u),
          split_once-append (decimal_ℤ ledger) event_id (all-decimal_ℤ ledger),
          parse_i64-decimal_ℤ ledger w,
        )
        refl

  -- A cursor that is there is read as a position or refused, never as the newest page.
  decode_cursor-present : (raw : Str) → decode_cursor base64 (some raw) ≢ ok none
  unfolding decode_cursor
  decode_cursor-present raw = go (decode_position base64 raw)
    where
      go : (r : Result Str (ℤ × Str)) → (do position ← r; ok (some position)) ≢ ok none
      go (ok p) h = cc
      go (err e) h = cc

  module _ (url_safe : (s : Str) → base64.url_safe_decode (base64.url_safe_encode s) ≡ some s) where
    encoded_bytes : (s : Str) → cursor_bytes (encode_payload base64 s) ≡ some s
    unfolding or_else encode_payload
    encoded_bytes s = rw (url_safe s) refl

    -- A ledger position survives its encoding, if the ledger is an `i64`, the id is UTF-8, and the
    -- URL-safe engine decodes what it encodes.
    decode_ledger-encode :
        (c : LedgerCursor)
        → IsI64 c.ledger
        → is_utf8 c.event_id ≡ true
        → (ledger_cursor base64).decode ((ledger_cursor base64).encode c) ≡ ok c
    unfolding decode_ledger encode_cursor
    decode_ledger-encode c w u =
        rw
          (decode_cursor-position (encode_cursor base64 c.ledger c.event_id) c.event_id c.ledger
            (encoded_bytes (decimal_ℤ c.ledger ++ b'|' ∷ c.event_id)) w u)
          refl

    -- A row id survives its encoding, if it is an `i64` and the URL-safe engine decodes what it
    -- encodes.
    pub decode_id-encode :
        (c : IdCursor) → IsI64 c.id → (id_cursor base64).decode ((id_cursor base64).encode c) ≡ ok c
    unfolding decode_id
    decode_id-encode c w =
        rw
          (
            decode_payload-bytes (encode_payload base64 (decimal_ℤ c.id)) (decimal_ℤ c.id)
                (encoded_bytes (decimal_ℤ c.id))
                (rw (append-nil (decimal_ℤ c.id)) at (is_utf8-numeral c.id [])
                  ∙ (unfold is_utf8 in refl)),
            parse_i64-decimal_ℤ c.id w,
          )
          refl
