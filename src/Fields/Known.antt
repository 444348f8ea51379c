-- ===== src/Fields/Known.antt =====
-- How many strings the fields of a record can make known.
use kieker_lang_pack_c.Common.{
  ◌+◌, ◌≤◌, List, [], ◌∷◌, length, length-append, Option-cases, inl, inr, arith,
}
use kieker_lang_pack_c.Word.{CString}
use kieker_lang_pack_c.Registry.{Registry, register, index_from}
use kieker_lang_pack_c.Fields.{
  Field, boolean, int8, int16, int32, int64, float, double, text, register_fields,
}

-- Each field makes at most one string known.
length-register :
    (reg : Registry) (string : CString) → length (register reg string) ≤ length reg + 1
unfolding register
length-register reg string = elim (Option-cases (index_from 0 reg string)) [
  | inl new ↦ rw new (omega (arith, length-append reg (string ∷ [])))
  | inr (i, known) ↦ rw known (omega arith)
]

pub most_known :
    (fs : List Field) (reg : Registry) → length (register_fields reg fs) ≤ length reg + length fs
most_known [] reg = omega arith
most_known (text v ∷ fs) reg = omega (arith, most_known fs (register reg v), length-register reg v)
most_known (boolean v ∷ fs) reg = omega (arith, most_known fs reg)
most_known (int8 v ∷ fs) reg = omega (arith, most_known fs reg)
most_known (int16 v ∷ fs) reg = omega (arith, most_known fs reg)
most_known (int32 v ∷ fs) reg = omega (arith, most_known fs reg)
most_known (int64 v ∷ fs) reg = omega (arith, most_known fs reg)
most_known (float v ∷ fs) reg = omega (arith, most_known fs reg)
most_known (double v ∷ fs) reg = omega (arith, most_known fs reg)
