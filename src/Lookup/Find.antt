-- ===== src/Lookup/Find.antt =====
-- The loop of `kieker_lookup_find_key_by_string` searches the registry.
use kieker_lang_pack_c.Common.{
  ℕ, suc, Option, some, List, [], ◌∷◌, ◌++◌, length, map, ◌≡◌, refl, inl, inr, Bool-cases,
}
use kieker_lang_pack_c.Word.{CString, str_eq}
use kieker_lang_pack_c.Registry.{Registry, index_from}
use kieker_lang_pack_c.Effect.{Represents}
use kieker_lang_pack_c.State.{LookupState}
use kieker_lang_pack_c.Lookup.{find_loop}

find_loop-index_from :
    (reg : Registry) (slack : List (Option CString)) (i : ℕ) (string : CString)
    → find_loop (length reg) (map some reg ++ slack) i string ≡ some (index_from i reg string)
unfolding find_loop index_from
find_loop-index_from [] slack i string = refl
find_loop-index_from (value ∷ reg) slack i string = elim (Bool-cases (str_eq value string)) [
  | inl same ↦ rw same
  | inr other ↦ rw other (find_loop-index_from reg slack (suc i) string)
]

-- On a table that holds a registry the loop meets no slot that was never written, and its outcome is
-- the number of the string in the registry.
pub find_loop-Represents :
    {l : LookupState} {reg : Registry} (string : CString)
    → Represents l reg
    → find_loop l.table_top l.string_list 0 string ≡ some (index_from 0 reg string)
find_loop-Represents {reg} string h =
    rw (h.top, h.slots) (find_loop-index_from reg h.slack 0 string)
