-- ===== src/IntArgs.antt =====
-- crates/lumenqraph-core/src/read.rs: the 256-bit integers in the arguments of a call, as four 64-bit
-- limbs, the highest first. What serde_json says of a number is a parameter; a text is the list of
-- its characters.
mod Examples
pub mod Magnitude
pub mod RoundTrip
use lumenqraph.Base.{
  ℕ, ◌+◌, ◌-◌, ◌*◌, ◌/◌, ◌%◌, ◌^◌, Bool, true, false, not, ◌&&◌, ◌||◌, Option, none, some, List, [],
  ◌∷◌, all, is_nil, ltb, leb, ◌==◌, if◌then◌else◌,
}
use lumenqraph.Base.Decimal.{is_digit}
use lumenqraph.Base.Result.{Result, ok, err, ok_or, ◌>>=◌}
use lumenqraph.Base.Text.{Text, trim}
use lumenqraph.Json.{Json, null, boolean, number, string, array, object}
use lumenqraph.Xdr.{Parts, invert, low_word, high_word}

-- The messages of `EncodeError::BadArgument`; the name of the argument is left out.
pub data BadArgument : Type 0 where
  expected_decimal : BadArgument
  out_of_range_256 : BadArgument
  expected_string : BadArgument
  expected_unsigned : BadArgument
  out_of_range_i256 : BadArgument

-- The accumulators stay below 2^128.
unfoldable pub mul10_add : Parts → ℕ → Option Parts
mul10_add limbs digit =
    let a0 = limbs.lo_lo * 10 + digit in
    let a1 = limbs.lo_hi * 10 + high_word a0 in
    let a2 = limbs.hi_lo * 10 + high_word a1 in
    let a3 = limbs.hi_hi * 10 + high_word a2 in
    if high_word a3 == 0
    then some (record {
      hi_hi = low_word a3;
      hi_lo = low_word a2;
      lo_hi = low_word a1;
      lo_lo = low_word a0;
    })
    else none

unfoldable pub zero_limbs : Parts
zero_limbs = record { hi_hi = 0; hi_lo = 0; lo_hi = 0; lo_lo = 0 }

-- The loop of `parse_digits`.
unfoldable pub digits_loop : Parts → Text → Result BadArgument Parts
digits_loop limbs [] = ok limbs
digits_loop limbs (b ∷ bs) = do
  limbs' ← ok_or out_of_range_256 (mul10_add limbs (b - b'0'))
  digits_loop limbs' bs

unfoldable pub parse_magnitude : Text → Result BadArgument Parts
parse_magnitude s =
    if is_nil s || not (all is_digit s) then err expected_decimal else digits_loop zero_limbs s

abbrev pub starts_with_minus : Text → Bool
starts_with_minus [] = false
starts_with_minus (c ∷ cs) = c == b'-'

-- `strip_prefix('+').unwrap_or(s)`, and the same with both signs.
abbrev pub without_plus : Text → Text
without_plus [] = []
without_plus (c ∷ cs) = if c == b'+' then cs else c ∷ cs

abbrev pub without_sign : Text → Text
without_sign [] = []
without_sign (c ∷ cs) = if c == b'-' || c == b'+' then cs else c ∷ cs

-- `negate`: the loop over the limbs stops at the first carry of zero.
unfoldable pub negate_limbs : Parts → Parts
negate_limbs l =
    let s0 = invert l.lo_lo + 1 in
    let s1 = invert l.lo_hi + high_word s0 in
    let s2 = invert l.hi_lo + high_word s1 in
    let s3 = invert l.hi_hi + high_word s2 in
    if high_word s0 == 0
    then record {
      hi_hi = invert l.hi_hi;
      hi_lo = invert l.hi_lo;
      lo_hi = invert l.lo_hi;
      lo_lo = low_word s0;
    }
    else if high_word s1 == 0
    then record {
      hi_hi = invert l.hi_hi;
      hi_lo = invert l.hi_lo;
      lo_hi = low_word s1;
      lo_lo = low_word s0;
    }
    else if high_word s2 == 0
    then record {
      hi_hi = invert l.hi_hi;
      hi_lo = low_word s2;
      lo_hi = low_word s1;
      lo_lo = low_word s0;
    }
    else record {
      hi_hi = low_word s3;
      hi_lo = low_word s2;
      lo_hi = low_word s1;
      lo_lo = low_word s0;
    }

-- The check of the range of a signed magnitude.
unfoldable pub signed_limbs : Bool → Parts → Result BadArgument Parts
signed_limbs negative limbs =
    let top = leb (2 ^ 63) limbs.hi_hi in
    let is_min =
      top && limbs.hi_lo == 0 && limbs.lo_hi == 0 && limbs.lo_lo == 0 && limbs.hi_hi == 2 ^ 63 in
    if not negative && top
    then err out_of_range_i256
    else if negative && top && not is_min
    then err out_of_range_i256
    else if negative
    then ok (negate_limbs limbs)
    else ok limbs

module _ {Number : Type 0} (is_64_bit : Number → Bool) (to_string : Number → Text) where
  unfoldable pub text_of_int : Json Number → Result BadArgument Text
  text_of_int (string s) = ok (trim s)
  text_of_int (number n) = if is_64_bit n then ok (to_string n) else err expected_string
  text_of_int null = err expected_string
  text_of_int (boolean b) = err expected_string
  text_of_int (array xs) = err expected_string
  text_of_int (object m) = err expected_string

  unfoldable pub parse_u256 : Json Number → Result BadArgument Parts
  parse_u256 v = do
    s ← text_of_int v
    if starts_with_minus s then err expected_unsigned else parse_magnitude (without_plus s)

  unfoldable pub parse_i256 : Json Number → Result BadArgument Parts
  parse_i256 v = do
    s ← text_of_int v
    limbs ← parse_magnitude (without_sign s)
    signed_limbs (starts_with_minus s) limbs
