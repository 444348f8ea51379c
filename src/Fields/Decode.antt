-- ===== src/Fields/Decode.antt =====
-- Reading a sequence of fields back, as the receiver does: it knows the kinds of the fields and the
-- strings that were announced.
use kieker_lang_pack_c.Common.{
  ℕ, ◌≤◌, ◌%◌, ◌^◌, List, [], ◌∷◌, ◌++◌, length, length-append, take, drop, map, Option, none, some,
  ◌≡◌, refl, arith, append_assoc, append-nil, get_elem?, if◌then◌else◌, leb, le→leb, ◌∙◌, sym, true,
  take-append, drop-append,
}
use mathlib.Core.Option
use kieker_lang_pack_c.Word.{of_le}
use kieker_lang_pack_c.Word.Bytes.{
  of_be, of_be-be_bytes_2, of_be-be_bytes_4, of_be-be_bytes_8, of_le-le_bytes_4,
}
use kieker_lang_pack_c.Word.Double.{to_uint64}
use kieker_lang_pack_c.Registry.{
  Registry, number_of, register, register-number_of, register-extends, number_of-lt,
  get_elem?-grows,
}
use kieker_lang_pack_c.Fields.{
  Field, boolean, int8, int16, int32, int64, float, double, text, width, encode_field,
  register_field, encode, register_fields, converted,
}
use kieker_lang_pack_c.Fields.Serialized.{length-encode_field}

-- The kind of a field, without its value.
pub data Kind : Type 0 where
  a_boolean an_int8 an_int16 an_int32 an_int64 a_float a_double a_text : Kind

abbrev pub kind : Field → Kind
kind (boolean v) = a_boolean
kind (int8 v) = an_int8
kind (int16 v) = an_int16
kind (int32 v) = an_int32
kind (int64 v) = an_int64
kind (float v) = a_float
kind (double v) = a_double
kind (text v) = a_text

abbrev pub kind_width : Kind → ℕ
kind_width a_boolean = 1
kind_width an_int8 = 1
kind_width an_int16 = 2
kind_width an_int32 = 4
kind_width an_int64 = 8
kind_width a_float = 4
kind_width a_double = 8
kind_width a_text = 4

abbrev first_byte : List ℕ → ℕ
first_byte [] = 0
first_byte (b ∷ bs) = b

-- The value of the bytes of a field. The wire form of a `double` is a bit pattern.
unfoldable pub value_of : Registry → Kind → List ℕ → Option Field
value_of reg a_boolean bs = some (boolean (first_byte bs))
value_of reg an_int8 bs = some (int8 (first_byte bs))
value_of reg an_int16 bs = some (int16 (of_be bs))
value_of reg an_int32 bs = some (int32 (of_be bs))
value_of reg an_int64 bs = some (int64 (of_be bs))
value_of reg a_float bs = some (float (of_le bs))
value_of reg a_double bs = some (double (of_be bs))
value_of reg a_text bs = Option.map text (get_elem? reg (of_be bs))

-- `none` is a message that is too short or names a string that was not announced.
unfoldable pub decode : Registry → List Kind → List ℕ → Option (List Field)
unfolding value_of
decode reg [] bytes = some []
decode reg (k ∷ ks) bytes =
    if leb (kind_width k) (length bytes)
    then elim (value_of reg k (take (kind_width k) bytes)) [
      | none ↦ none
      | some f ↦ Option.map (λ fs. f ∷ fs) (decode reg ks (drop (kind_width k) bytes))
    ]
    else none

-- What arrives of a field: a number is cut to its width, and of a `double` comes the integer part.
abbrev pub arrives : Field → Field
arrives (boolean v) = boolean (v % 2 ^ 8)
arrives (int8 v) = int8 (v % 2 ^ 8)
arrives (int16 v) = int16 (v % 2 ^ 16)
arrives (int32 v) = int32 (v % 2 ^ 32)
arrives (int64 v) = int64 (v % 2 ^ 64)
arrives (float v) = float (v % 2 ^ 32)
arrives (double v) = double (converted (to_uint64 v) % 2 ^ 64)
arrives (text v) = text v

pub register_fields-extends :
    (fs : List Field) (reg : Registry) → (more : Registry) × (register_fields reg fs ≡ reg ++ more)
register_fields-extends [] reg = ([], sym (append-nil reg))
register_fields-extends (text v ∷ fs) reg =
    let (a, e) = register-extends reg v in
    let (c, e') = register_fields-extends fs (register reg v) in (a ++ c, rw (e', e, append_assoc))
register_fields-extends (boolean v ∷ fs) reg = register_fields-extends fs reg
register_fields-extends (int8 v ∷ fs) reg = register_fields-extends fs reg
register_fields-extends (int16 v ∷ fs) reg = register_fields-extends fs reg
register_fields-extends (int32 v ∷ fs) reg = register_fields-extends fs reg
register_fields-extends (int64 v ∷ fs) reg = register_fields-extends fs reg
register_fields-extends (float v ∷ fs) reg = register_fields-extends fs reg
register_fields-extends (double v ∷ fs) reg = register_fields-extends fs reg

-- The receiver's registry: what is registered after the fields, and perhaps more; its numbers fit
-- into 32 bits.
value_of-encode_field :
    (reg more : Registry) (f : Field)
    → length (register_field reg f ++ more) ≤ 2 ^ 32
    → value_of (register_field reg f ++ more) (kind f) (encode_field reg f) ≡ some (arrives f)
unfolding value_of encode_field
value_of-encode_field reg more (boolean v) small = refl
value_of-encode_field reg more (int8 v) small = refl
value_of-encode_field reg more (int16 v) small = rw of_be-be_bytes_2
value_of-encode_field reg more (int32 v) small = rw of_be-be_bytes_4
value_of-encode_field reg more (int64 v) small = rw of_be-be_bytes_8
value_of-encode_field reg more (float v) small = rw of_le-le_bytes_4
value_of-encode_field reg more (double v) small = rw of_be-be_bytes_8
value_of-encode_field reg more (text v) small =
    let below : number_of reg v % 2 ^ 32 ≡ number_of reg v =
      omega (arith, number_of-lt reg v, length-append (register reg v) more) in
    rw (
      of_be-be_bytes_4,
      below,
      get_elem?-grows (register reg v) more (number_of reg v) v (register-number_of reg v),
    )

pub kind_width-kind : (f : Field) → kind_width (kind f) ≡ width f
kind_width-kind (boolean v) = refl
kind_width-kind _ = refl

-- The fields are read back from their encoding.
pub decode-encode :
    (fs : List Field) (reg more : Registry) (rest : List ℕ)
    → length (register_fields reg fs ++ more) ≤ 2 ^ 32
    → decode (register_fields reg fs ++ more) (map kind fs) (encode reg fs ++ rest)
      ≡ some (map arrives fs)
unfolding decode
decode-encode [] reg more rest small = refl
decode-encode (f ∷ fs) reg more rest small =
    let reg1 = register_field reg f in
    let bytes = encode_field reg f in
    let (more1, e) = register_fields-extends fs reg1 in
    let w = kind_width (kind f) in
    let tail = encode reg1 fs ++ rest in
    let len : w ≡ length bytes = kind_width-kind f ∙ sym (length-encode_field reg f) in
    let enough : leb w (length (bytes ++ tail)) ≡ true =
      le→leb _ _ (omega (arith, length-append bytes tail)) in
    let whole : register_fields reg1 fs ++ more ≡ reg1 ++ (more1 ++ more) = rw (e, append_assoc) in
    let value : value_of (register_fields reg1 fs ++ more) (kind f) bytes ≡ some (arrives f) =
      rw whole (value_of-encode_field reg (more1 ++ more) f (rw whole at small)) in
    rw append_assoc (
      rw (enough, take-append bytes tail w len)
        (rw value (
          rw append_assoc
            (rw (drop-append bytes tail w len, decode-encode fs reg1 more rest small)))))
