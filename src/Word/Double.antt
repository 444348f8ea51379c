-- ===== src/Word/Double.antt =====
-- A `double` is its IEEE 754 binary64 bit pattern: 1 bit of sign, 11 of exponent, 52 of fraction.
use kieker_lang_pack_c.Common.{
  ℕ, ◌+◌, ◌-◌, ◌*◌, ◌/◌, ◌%◌, ◌^◌, Option, none, some, if◌then◌else◌, ltb, ◌==◌, ◌≡◌, refl,
}

abbrev pub sign_bit : ℕ → ℕ
sign_bit d = d / 2 ^ 63 % 2

abbrev pub exponent : ℕ → ℕ
exponent d = d / 2 ^ 52 % 2048

abbrev pub significand : ℕ → ℕ
significand d = 2 ^ 52 + d % 2 ^ 52

-- The integer part of a pattern of exponent 1023 to 1086.
unfoldable pub integer_part : ℕ → ℕ
integer_part d =
    if ltb (exponent d) 1075
    then significand d / 2 ^ (1075 - exponent d)
    else significand d * 2 ^ (exponent d - 1075)

-- The conversion of a `double` to `uint64_t`: the fraction is dropped. `none` is a value of which
-- the integer part does not fit, for which C leaves the conversion undefined.
unfoldable pub to_uint64 : ℕ → Option ℕ
unfolding integer_part
to_uint64 d =
    if ltb (exponent d) 1023
    then some 0
    else if sign_bit d == 1
    then none
    else if ltb (exponent d) 1087
    then some (integer_part d)
    else none

-- 0.5, 1.0, 2.5 and 2^63.
to_uint64_half : to_uint64 0x3fe0_0000_0000_0000 ≡ some 0
unfolding to_uint64
to_uint64_half = refl

to_uint64_one : to_uint64 0x3ff0_0000_0000_0000 ≡ some 1
unfolding to_uint64
to_uint64_one = refl

to_uint64_2_5 : to_uint64 0x4004_0000_0000_0000 ≡ some 2
unfolding to_uint64
to_uint64_2_5 = refl

to_uint64_2_63 : to_uint64 0x43e0_0000_0000_0000 ≡ some (2 ^ 63)
unfolding to_uint64
to_uint64_2_63 = refl
