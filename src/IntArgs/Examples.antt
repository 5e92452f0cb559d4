-- ===== src/IntArgs/Examples.antt =====
-- The integers -2 and 2^64 + 1, and the theorems at them.
use lumenqraph.Base.{ℕ, ◌-◌, ◌^◌, ◌≡◌, refl, Bool, false, some, arith}
use lumenqraph.Base.Str.{lit}
use lumenqraph.Base.Result.{ok, err}
use lumenqraph.Base.Text.{Text}
use lumenqraph.Json.{string}
use lumenqraph.Xdr.{Parts, u256_to_decimal, i256_to_decimal}
use lumenqraph.Xdr.Unsigned.{IsParts, u256_to_decimal_lem}
use lumenqraph.Xdr.Signed.{i256_to_decimal_lem}
use lumenqraph.IntArgs.{parse_u256, parse_i256, expected_unsigned}
use lumenqraph.IntArgs.RoundTrip.{parse_u256-u256_to_decimal, parse_i256-i256_to_decimal}

-- Numbers that serde_json reads as floats.
abbrev is_64_bit : ℕ → Bool
is_64_bit n = false

abbrev to_string : ℕ → Text
to_string n = lit "1.5"

abbrev above_64 : Parts
above_64 = record { hi_hi = 0; hi_lo = 0; lo_hi = 1; lo_lo = 1 }

abbrev minus_two : Parts
minus_two = record {
  hi_hi = 2 ^ 64 - 1;
  hi_lo = 2 ^ 64 - 1;
  lo_hi = 2 ^ 64 - 1;
  lo_lo = 2 ^ 64 - 2;
}

above_64-IsParts : IsParts above_64
above_64-IsParts = omega arith

minus_two-IsParts : IsParts minus_two
minus_two-IsParts = omega arith

above_64_printed : u256_to_decimal above_64 ≡ some (lit "18446744073709551617")
unfolding lumenqraph.Base.Decimal.decimal
above_64_printed = u256_to_decimal_lem above_64 above_64-IsParts

minus_two_printed : i256_to_decimal minus_two ≡ some (lit "-2")
unfolding lumenqraph.Base.Decimal.decimal_ℤ lumenqraph.Base.Decimal.decimal
minus_two_printed = i256_to_decimal_lem minus_two minus_two-IsParts

negative_refused : parse_u256 is_64_bit to_string (string (lit "-2")) ≡ err expected_unsigned
unfolding parse_u256 lumenqraph.IntArgs.text_of_int lumenqraph.Base.Text.trim
negative_refused = refl

parse_u256-u256_to_decimal_example :
    parse_u256 is_64_bit to_string (string (lit "18446744073709551617")) ≡ ok above_64
parse_u256-u256_to_decimal_example =
    parse_u256-u256_to_decimal is_64_bit to_string above_64 (lit "18446744073709551617")
      above_64-IsParts above_64_printed

parse_i256-i256_to_decimal_example :
    parse_i256 is_64_bit to_string (string (lit "-2")) ≡ ok minus_two
parse_i256-i256_to_decimal_example =
    parse_i256-i256_to_decimal is_64_bit to_string minus_two (lit "-2") minus_two-IsParts
      minus_two_printed
