-- ===== src/Word.antt =====
-- Machine words and C strings, as the library uses them on a little-endian host with 8-bit bytes.
-- A w-bit integer, signed or not, is its two's complement bit pattern, a number; a conversion to
-- a narrower type is the remainder by `2 ^ w`.
pub mod Bytes
pub mod Double
use Prim.Native.Char.{code}
use kieker_lang_pack_c.Common.{
  ℕ, zero, suc, ◌+◌, ◌*◌, ◌/◌, ◌%◌, ◌^◌, ◌-◌, ◌<◌, String, List, [], ◌∷◌, reverse, Bool, true,
  false, ◌&&◌, ◌==◌, leb, if◌then◌else◌, ◌≡◌, refl,
}

-- The bytes of a `size`-byte integer in the host's memory, the least significant first.
unfoldable pub le_bytes : ℕ → ℕ → List ℕ
le_bytes zero v = []
le_bytes (suc size) v = (v % 256) ∷ le_bytes size (v / 256)

-- The integer whose bytes in the host's memory are these.
unfoldable pub of_le : List ℕ → ℕ
of_le [] = 0
of_le (b ∷ bs) = b + 256 * of_le bs

-- `htons`, `htonl` and `bswap_64` reverse the bytes of an integer of 2, 4 and 8 bytes.
unfoldable pub htons : ℕ → ℕ
unfolding le_bytes of_le
htons v = of_le (reverse (le_bytes 2 v))

unfoldable pub htonl : ℕ → ℕ
unfolding le_bytes of_le
htonl v = of_le (reverse (le_bytes 4 v))

unfoldable pub bswap_64 : ℕ → ℕ
unfolding le_bytes of_le
bswap_64 v = of_le (reverse (le_bytes 8 v))

-- The 64-bit pattern of a signed 32-bit pattern.
unfoldable pub sign_extend : ℕ → ℕ
sign_extend v = if leb (2 ^ 31) (v % 2 ^ 32) then v % 2 ^ 32 + (2 ^ 64 - 2 ^ 32) else v % 2 ^ 32

-- The pattern of the `int` -1.
abbrev pub int_minus_one : ℕ
int_minus_one = 2 ^ 32 - 1

-- The 64-bit pattern of -1, and the increment and decrement of a 64-bit pattern.
abbrev pub minus_one : ℕ
minus_one = 2 ^ 64 - 1

unfoldable pub increment : ℕ → ℕ
increment v = (v + 1) % 2 ^ 64

unfoldable pub decrement : ℕ → ℕ
decrement v = (v + (2 ^ 64 - 1)) % 2 ^ 64

-- A C string is the list of its bytes, its final zero left out.
abbrev pub CString : Type 0
CString = List ℕ

-- The bytes of a literal of ASCII characters.
abbrev pub chars : String → CString
chars String.[] = []
chars (String.◌∷◌ c s) = code c ∷ chars s

-- `strcmp(s, t) == 0`.
unfoldable pub str_eq : CString → CString → Bool
str_eq [] [] = true
str_eq (a ∷ s) (b ∷ t) = (a == b) && str_eq s t
str_eq _ _ = false

htonl_test : htonl 0x01020304 ≡ 0x04030201
unfolding htonl
htonl_test = refl

sign_extend_test : sign_extend 0xffff_ffff ≡ minus_one
unfolding sign_extend
sign_extend_test = refl
