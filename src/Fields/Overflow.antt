-- ===== src/Fields/Overflow.antt =====
-- Serializing past the end of a block.
use native.Mathlib.Decide.{dec_le}
use kieker_lang_pack_c.Common.{
  ℕ, ◌+◌, ◌≤◌, ◌<◌, ◌%◌, List, [], ◌∷◌, length, none, some, ◌≡◌, ◌≢◌, refl, arith, length-splice,
  sym,
}
use kieker_lang_pack_c.Word.{le_bytes}
use kieker_lang_pack_c.Word.Bytes.{
  le_bytes-htons, le_bytes-htonl, le_bytes-bswap_64, length-be_bytes_2, length-be_bytes_4,
  length-be_bytes_8,
}
use kieker_lang_pack_c.State.{Ptr, State}
use kieker_lang_pack_c.Exec.{pure, memcpy, ◌>>=◌, ◌>>◌, ◌+=◌, the}
use kieker_lang_pack_c.Exec.Returns.{memcpy_faults}
use kieker_lang_pack_c.Registry.{Registry}
use kieker_lang_pack_c.Effect.{Ready}
use kieker_lang_pack_c.Lookup.Keys.{find_key_by_string-Wrote}
use kieker_lang_pack_c.Serialize.{
  serialize_boolean, serialize_int8, serialize_int16, serialize_int32, serialize_int64,
  serialize_float, serialize_double, serialize_string,
}
use kieker_lang_pack_c.Fields.{
  Field, boolean, int8, int16, int32, int64, float, double, text, serialize_field, serialize_fields,
  width, size, encode_field, FitsField, Fits,
}
use kieker_lang_pack_c.Fields.Serialized.{serialize_field-Wrote}

copy_overflow :
    {b : Ptr} {xs : List ℕ} (s : State) (offset : ℕ) (bytes : List ℕ) (n : ℕ)
    → s.heap.blocks b ≡ some xs
    → n ≡ length bytes
    → length xs < offset + n
    → (memcpy b offset bytes >> pure n) s ≡ none
copy_overflow {b} s offset bytes n holds e over =
    rw (memcpy_faults b s holds offset bytes (omega arith), ◌>>◌, ◌>>=◌)

module _ {b : Ptr} {xs : List ℕ} {reg : Registry} {s : State} (ready : Ready reg s)
    (holds : s.heap.blocks b ≡ some xs) (apart : b ≢ s.controller.string_buffer) (offset : ℕ) where
  serialize_field_overflow :
      (f : Field) → FitsField f → length xs < offset + width f → serialize_field b offset f s ≡ none
  unfolding serialize_field serialize_boolean serialize_int8 serialize_int16 serialize_int32
      serialize_int64 serialize_float serialize_double serialize_string
  serialize_field_overflow (boolean v) ok over =
      copy_overflow s offset ((v % 256) ∷ []) 1 holds refl over
  serialize_field_overflow (int8 v) ok over =
      copy_overflow s offset ((v % 256) ∷ []) 1 holds refl over
  serialize_field_overflow (int16 v) ok over =
      rw le_bytes-htons (copy_overflow s offset _ 2 holds (sym (length-be_bytes_2 v)) over)
  serialize_field_overflow (int32 v) ok over =
      rw le_bytes-htonl (copy_overflow s offset _ 4 holds (sym (length-be_bytes_4 v)) over)
  serialize_field_overflow (int64 v) ok over =
      rw le_bytes-bswap_64 (copy_overflow s offset _ 8 holds (sym (length-be_bytes_8 v)) over)
  serialize_field_overflow (float v) ok over =
      copy_overflow s offset (le_bytes 4 v) 4 holds (unfold le_bytes in refl) over
  serialize_field_overflow (double v) (n, ok) over =
      rw (ok, the, ◌>>=◌)
        (rw le_bytes-bswap_64 (copy_overflow s offset _ 8 holds (sym (length-be_bytes_8 n)) over))
  serialize_field_overflow (text v) ok over =
      let found = find_key_by_string-Wrote v ready holds apart ok in
      rw (found.run, ◌>>=◌)
        (rw le_bytes-htonl
          (copy_overflow found.final offset _ 4 found.post.holds (sym (length-be_bytes_4 _)) over))

-- Fields that do not fit behind `offset` are written past the end of the block.
pub serialize_fields_overflow :
    (fs : List Field) {b : Ptr} {xs : List ℕ} {reg : Registry} {s : State} (offset : ℕ)
    → Ready reg s
    → s.heap.blocks b ≡ some xs
    → b ≢ s.controller.string_buffer
    → Fits fs
    → offset ≤ length xs
    → length xs < offset + size fs
    → serialize_fields b offset fs s ≡ none
unfolding serialize_fields
serialize_fields_overflow [] offset ready holds apart ok inside over = absurd (omega arith)
serialize_fields_overflow (f ∷ fs) {xs} {reg} offset ready holds apart ok inside over =
    elim (dec_le (offset + width f) (length xs)) [
      | yes fits ↦
          let first = serialize_field-Wrote ready holds apart offset f ok.0 fits in
          let w = first.post in
          let same = length-splice xs offset (encode_field reg f) in
          rw (first.run, ◌>>=◌, ◌+=◌)
            (serialize_fields_overflow fs (offset + width f) w.ready w.holds
              (rw w.frame.string_buffer apart) ok.1 (omega (arith, same)) (omega (arith, same)))
      | no short ↦
          rw (serialize_field_overflow ready holds apart offset f ok.0 (omega arith), ◌>>=◌, ◌+=◌)
    ]
