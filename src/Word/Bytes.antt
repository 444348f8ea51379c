-- ===== src/Word/Bytes.antt =====
-- The byte order of the wire: what `htonl` and its like leave in memory is the integer, the most
-- significant byte first, and it reads back as the integer.
use kieker_lang_pack_c.Common.{
  ℕ, ◌+◌, ◌*◌, ◌/◌, ◌%◌, ◌^◌, ◌<◌, List, [], ◌∷◌, reverse, ◌≡◌, refl, ap, arith, length, ◌↔◌, true,
  All,
}
use kieker_lang_pack_c.Word.{le_bytes, of_le, htons, htonl, bswap_64, str_eq, CString}

abbrev pub IsByte : ℕ → Type 0
IsByte b = b < 256

-- The wire form of a `size`-byte integer: the most significant byte first.
unfoldable pub be_bytes : ℕ → ℕ → List ℕ
unfolding le_bytes
be_bytes size v = reverse (le_bytes size v)

-- The integer that a wire form stands for.
unfoldable pub of_be : List ℕ → ℕ
unfolding of_le
of_be bs = of_le (reverse bs)

le_bytes-of_le : (bs : List ℕ) → All IsByte bs → le_bytes (length bs) (of_le bs) ≡ bs
unfolding le_bytes of_le
le_bytes-of_le [] h = refl
le_bytes-of_le (b ∷ bs) h =
    let low : (b + 256 * of_le bs) % 256 ≡ b = omega arith in
    let high : (b + 256 * of_le bs) / 256 ≡ of_le bs = omega arith in
    rw (low, high) (ap (λ t. b ∷ t) (le_bytes-of_le bs h.1))

pub le_bytes-htons : (v : ℕ) → le_bytes 2 (htons v) ≡ be_bytes 2 v
unfolding htons be_bytes
le_bytes-htons v = le_bytes-of_le (reverse (le_bytes 2 v)) (omega arith)

pub le_bytes-htonl : (v : ℕ) → le_bytes 4 (htonl v) ≡ be_bytes 4 v
unfolding htonl be_bytes
le_bytes-htonl v = le_bytes-of_le (reverse (le_bytes 4 v)) (omega arith)

pub le_bytes-bswap_64 : (v : ℕ) → le_bytes 8 (bswap_64 v) ≡ be_bytes 8 v
unfolding bswap_64 be_bytes
le_bytes-bswap_64 v = le_bytes-of_le (reverse (le_bytes 8 v)) (omega arith)

pub of_be-be_bytes_2 : (v : ℕ) → of_be (be_bytes 2 v) ≡ v % 2 ^ 16
unfolding of_be be_bytes
of_be-be_bytes_2 v = omega arith

pub of_be-be_bytes_4 : (v : ℕ) → of_be (be_bytes 4 v) ≡ v % 2 ^ 32
unfolding of_be be_bytes
of_be-be_bytes_4 v = omega arith

pub of_be-be_bytes_8 : (v : ℕ) → of_be (be_bytes 8 v) ≡ v % 2 ^ 64
unfolding of_be be_bytes
of_be-be_bytes_8 v = omega arith

pub of_le-le_bytes_4 : (v : ℕ) → of_le (le_bytes 4 v) ≡ v % 2 ^ 32
unfolding of_le le_bytes
of_le-le_bytes_4 v = omega arith

pub length-be_bytes_2 : (v : ℕ) → length (be_bytes 2 v) ≡ 2
unfolding be_bytes
length-be_bytes_2 v = refl

pub length-be_bytes_4 : (v : ℕ) → length (be_bytes 4 v) ≡ 4
unfolding be_bytes
length-be_bytes_4 v = refl

pub length-be_bytes_8 : (v : ℕ) → length (be_bytes 8 v) ≡ 8
unfolding be_bytes
length-be_bytes_8 v = refl

-- `strcmp` finds equality.
pub str_eq_iff : (s t : CString) → (str_eq s t ≡ true) ↔ (s ≡ t)
unfolding str_eq
str_eq_iff [] [] = (λ _. refl, λ _. refl)
str_eq_iff [] (b ∷ t) = ground arith
str_eq_iff (a ∷ s) [] = ground arith
str_eq_iff (a ∷ s) (b ∷ t) = ground (arith, str_eq_iff s t)
