-- ===== src/Serialize.antt =====
-- libkieker/common/utilities/kieker_serialize.c: the numbers, and strings by their index.
unfoldable pub use kieker_lang_pack_c.Numbers.{
  serialize_boolean, serialize_int8, serialize_int16, serialize_int32, serialize_int64,
  serialize_float, serialize_double,
}
use kieker_lang_pack_c.Common.{ℕ}
use kieker_lang_pack_c.Word.{CString, le_bytes, htonl}
use kieker_lang_pack_c.State.{Ptr}
use kieker_lang_pack_c.Exec.{Exec, pure, memcpy, ◌>>=◌, ◌>>◌}
use kieker_lang_pack_c.Lookup.{find_key_by_string}

unfoldable pub serialize_string : Ptr → ℕ → CString → Exec ℕ
serialize_string buffer offset string = do
  key ← find_key_by_string string
  let nvalue = htonl key
  memcpy buffer offset (le_bytes 4 nvalue)
  pure 4
