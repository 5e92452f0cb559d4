-- ===== src/Xdr/Examples.antt =====
-- Concrete 256-bit integers, and the theorems at them.
use lumenqraph.Base.{◌≡◌, some, arith}
use lumenqraph.Base.Decimal.{decimal, decimal_ℤ}
use lumenqraph.Xdr.{Parts, u256_to_decimal, i256_to_decimal}
use lumenqraph.Xdr.Unsigned.{parts_value, IsParts, u256_to_decimal_lem}
use lumenqraph.Xdr.Signed.{signed_value, i256_to_decimal_lem}

-- 2 ^ 64 + 7.
abbrev wide : Parts
wide = record { hi_hi = 0; hi_lo = 0; lo_hi = 1; lo_lo = 7 }

-- All bits set.
abbrev ones : Parts
ones = record {
  hi_hi = 18_446_744_073_709_551_615;
  hi_lo = 18_446_744_073_709_551_615;
  lo_hi = 18_446_744_073_709_551_615;
  lo_lo = 18_446_744_073_709_551_615;
}

wide-IsParts : IsParts wide
wide-IsParts = record {
  hi_hi = omega arith;
  hi_lo = omega arith;
  lo_hi = omega arith;
  lo_lo = omega arith;
}

ones-IsParts : IsParts ones
ones-IsParts = record {
  hi_hi = omega arith;
  hi_lo = omega arith;
  lo_hi = omega arith;
  lo_lo = omega arith;
}

u256_to_decimal_lem_example : u256_to_decimal wide ≡ some (decimal (parts_value wide))
u256_to_decimal_lem_example = u256_to_decimal_lem wide wide-IsParts

i256_to_decimal_lem_example : i256_to_decimal ones ≡ some (decimal_ℤ (signed_value ones))
i256_to_decimal_lem_example = i256_to_decimal_lem ones ones-IsParts
