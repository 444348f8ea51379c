-- ===== src/Fields/Append.antt =====
-- The encoding, the registration and the announcements of two sequences of fields in a row.
use kieker_lang_pack_c.Common.{ℕ, ◌+◌, arith, List, [], ◌∷◌, ◌++◌, ◌≡◌, refl, append_assoc}
use kieker_lang_pack_c.Registry.{Registry}
use kieker_lang_pack_c.Fields.{
  Field, size, register_field, encode, register_fields, announce_fields,
}

pub register_fields-append :
    (fs gs : List Field) (reg : Registry)
    → register_fields reg (fs ++ gs) ≡ register_fields (register_fields reg fs) gs
register_fields-append [] gs reg = refl
register_fields-append (f ∷ fs) gs reg = register_fields-append fs gs (register_field reg f)

pub encode-append :
    (fs gs : List Field) (reg : Registry)
    → encode reg (fs ++ gs) ≡ encode reg fs ++ encode (register_fields reg fs) gs
encode-append [] gs reg = refl
encode-append (f ∷ fs) gs reg = rw (encode-append fs gs (register_field reg f), append_assoc)

pub announce_fields-append :
    (socket : ℕ) (fs gs : List Field) (reg : Registry)
    → announce_fields socket reg (fs ++ gs)
      ≡ announce_fields socket reg fs ++ announce_fields socket (register_fields reg fs) gs
announce_fields-append socket [] gs reg = refl
announce_fields-append socket (f ∷ fs) gs reg =
    rw (announce_fields-append socket fs gs (register_field reg f), append_assoc)

pub size-append : (fs gs : List Field) → size (fs ++ gs) ≡ size fs + size gs
size-append [] gs = omega arith
size-append (f ∷ fs) gs = omega (arith, size-append fs gs)
