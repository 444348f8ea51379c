-- ===== src/Numbers.antt =====
-- The numbers of libkieker/common/utilities/kieker_serialize.c. Each function writes a value to
-- `buffer` at `offset` and returns the size of what it wrote.
use kieker_lang_pack_c.Common.{ℕ, ◌%◌, ◌∷◌, []}
use kieker_lang_pack_c.Word.{le_bytes, htons, htonl, bswap_64}
use kieker_lang_pack_c.Word.Double.{to_uint64}
use kieker_lang_pack_c.State.{Ptr}
use kieker_lang_pack_c.Exec.{Exec, pure, the, memcpy, ◌>>=◌, ◌>>◌}

unfoldable pub serialize_boolean : Ptr → ℕ → ℕ → Exec ℕ
serialize_boolean buffer offset value = do memcpy buffer offset ((value % 256) ∷ []); pure 1

unfoldable pub serialize_int8 : Ptr → ℕ → ℕ → Exec ℕ
serialize_int8 buffer offset value = do memcpy buffer offset ((value % 256) ∷ []); pure 1

unfoldable pub serialize_int16 : Ptr → ℕ → ℕ → Exec ℕ
serialize_int16 buffer offset value = do
  let nvalue = htons value
  memcpy buffer offset (le_bytes 2 nvalue)
  pure 2

-- `value` and `nvalue` are 64 bits wide: `htonl` takes the low half of `value`, and the first four
-- bytes of `nvalue` in memory are its low half.
unfoldable pub serialize_int32 : Ptr → ℕ → ℕ → Exec ℕ
serialize_int32 buffer offset value = do
  let nvalue = htonl value
  memcpy buffer offset (le_bytes 4 nvalue)
  pure 4

unfoldable pub serialize_int64 : Ptr → ℕ → ℕ → Exec ℕ
serialize_int64 buffer offset value = do
  let nvalue = bswap_64 value
  memcpy buffer offset (le_bytes 8 nvalue)
  pure 8

-- `value` is the 32-bit pattern of the number, copied in the byte order of the host.
unfoldable pub serialize_float : Ptr → ℕ → ℕ → Exec ℕ
serialize_float buffer offset value = do memcpy buffer offset (le_bytes 4 value); pure 4

-- `value` is a `double`, and `bswap_64` takes a `uint64_t`: the argument is converted.
unfoldable pub serialize_double : Ptr → ℕ → ℕ → Exec ℕ
serialize_double buffer offset value = do
  converted ← the (to_uint64 value)
  let nvalue = bswap_64 converted
  memcpy buffer offset (le_bytes 8 nvalue)
  pure 8
