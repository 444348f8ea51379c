-- ===== src/Fields.antt =====
-- The layout of a record on the wire: a sequence of fields, each a number in its wire form or the
-- number of a string in the registry. This is the description that the serializers are held to.
pub mod Append
pub mod Serialized
pub mod Overflow
pub mod Decode
pub mod Known
use kieker_lang_pack_c.Common.{
  ℕ, ◌+◌, ◌≤◌, ◌%◌, List, [], ◌∷◌, ◌++◌, length, Option, none, some, ◌≡◌,
}
use kieker_lang_pack_c.Word.{CString, le_bytes}
use kieker_lang_pack_c.Word.Bytes.{be_bytes}
use kieker_lang_pack_c.Word.Double.{to_uint64}
use kieker_lang_pack_c.State.{Ptr, Write}
use kieker_lang_pack_c.Exec.{Exec, pure, ◌>>=◌, ◌+=◌}
use kieker_lang_pack_c.Registry.{Registry, number_of, register}
use kieker_lang_pack_c.Effect.{max_string}
use kieker_lang_pack_c.Lookup.Keys.{announcements}
use kieker_lang_pack_c.Serialize.{
  serialize_boolean, serialize_int8, serialize_int16, serialize_int32, serialize_int64,
  serialize_float, serialize_double, serialize_string,
}

-- A value of a field, numbers as bit patterns.
pub data Field : Type 0 where
  boolean int8 int16 int32 int64 float double : ℕ → Field
  text : CString → Field

-- The serializer of kieker_serialize.c for each kind of field.
unfoldable pub serialize_field : Ptr → ℕ → Field → Exec ℕ
serialize_field buffer offset (boolean v) = serialize_boolean buffer offset v
serialize_field buffer offset (int8 v) = serialize_int8 buffer offset v
serialize_field buffer offset (int16 v) = serialize_int16 buffer offset v
serialize_field buffer offset (int32 v) = serialize_int32 buffer offset v
serialize_field buffer offset (int64 v) = serialize_int64 buffer offset v
serialize_field buffer offset (float v) = serialize_float buffer offset v
serialize_field buffer offset (double v) = serialize_double buffer offset v
serialize_field buffer offset (text v) = serialize_string buffer offset v

-- One field after another; the result is the position behind the last.
unfoldable pub serialize_fields : Ptr → ℕ → List Field → Exec ℕ
unfolding serialize_field
serialize_fields buffer position [] = pure position
serialize_fields buffer position (f ∷ fs) = do
  position ← position += serialize_field buffer position f
  serialize_fields buffer position fs

abbrev pub width : Field → ℕ
width (boolean v) = 1
width (int8 v) = 1
width (int16 v) = 2
width (int32 v) = 4
width (int64 v) = 8
width (float v) = 4
width (double v) = 8
width (text v) = 4

abbrev pub size : List Field → ℕ
size [] = 0
size (f ∷ fs) = width f + size fs

abbrev pub converted : Option ℕ → ℕ
converted none = 0
converted (some v) = v

-- The bytes of a field, given the registry before it is written.
unfoldable pub encode_field : Registry → Field → List ℕ
encode_field reg (boolean v) = (v % 256) ∷ []
encode_field reg (int8 v) = (v % 256) ∷ []
encode_field reg (int16 v) = be_bytes 2 v
encode_field reg (int32 v) = be_bytes 4 v
encode_field reg (int64 v) = be_bytes 8 v
encode_field reg (float v) = le_bytes 4 v
encode_field reg (double v) = be_bytes 8 (converted (to_uint64 v))
encode_field reg (text v) = be_bytes 4 (number_of reg v)

abbrev pub register_field : Registry → Field → Registry
register_field reg (text v) = register reg v
register_field reg _ = reg

abbrev pub announce_field : ℕ → Registry → Field → List Write
announce_field socket reg (text v) = announcements socket reg v
announce_field socket reg _ = []

abbrev pub encode : Registry → List Field → List ℕ
encode reg [] = []
encode reg (f ∷ fs) = encode_field reg f ++ encode (register_field reg f) fs

abbrev pub register_fields : Registry → List Field → Registry
register_fields reg [] = reg
register_fields reg (f ∷ fs) = register_fields (register_field reg f) fs

abbrev pub announce_fields : ℕ → Registry → List Field → List Write
announce_fields socket reg [] = []
announce_fields socket reg (f ∷ fs) =
    announce_field socket reg f ++ announce_fields socket (register_field reg f) fs

-- What serializing a field needs: a string has to fit into the string buffer, and the integer part
-- of a `double` into a `uint64_t`.
abbrev pub FitsField : Field → Type 0
FitsField (text v) = length v ≤ max_string
FitsField (double v) = (n : ℕ) × (to_uint64 v ≡ some n)
FitsField _ = Unit {0}

abbrev pub Fits : List Field → Type 0
Fits [] = Unit {0}
Fits (f ∷ fs) = FitsField f × Fits fs
