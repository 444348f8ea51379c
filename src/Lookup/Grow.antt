-- ===== src/Lookup/Grow.antt =====
-- Making room for a string and storing it.
use kieker_lang_pack_c.Common.{
  ℕ, zero, suc, ◌+◌, ◌<◌, Option, none, some, List, [], ◌∷◌, ◌++◌, length, length-append,
  length-replicate, length-map, length-set, map, ◌≡◌, ◌≢◌, refl, arith, set, replicate,
  append_assoc, inl, inr, Bool-cases, ◌==◌, ap, ◌∙◌,
}
use kieker_lang_pack_c.Word.{CString}
use kieker_lang_pack_c.Registry.{Registry}
use kieker_lang_pack_c.Effect.{Represents}
use kieker_lang_pack_c.State.{LookupState}
use kieker_lang_pack_c.Lookup.{reserve, table_inc}

length-slots :
    {l : LookupState} {reg : Registry} (h : Represents l reg)
    → length l.string_list ≡ length reg + length h.slack
length-slots {reg} h =
    rw h.slots (length-append (map some reg) h.slack ∙ omega (arith, length-map reg some))

abbrev spare_slot : Option CString
spare_slot = none

abbrev spare : List (Option CString)
spare = replicate table_inc spare_slot

grown :
    {l : LookupState} {reg : Registry}
    → Represents l reg
    → Represents
        (record l { table_max = l.table_max + table_inc; string_list = l.string_list ++ spare })
        reg
grown {l} {reg} h = record {
  slack = h.slack ++ spare;
  slots = rw (h.slots, append_assoc);
  top = h.top;
  limit =
      omega
        (arith, h.limit, length-append l.string_list spare, length-replicate table_inc spare_slot);
}

-- `reserve` keeps the registry and leaves a free slot.
pub reserve-Represents :
    {l : LookupState} {reg : Registry}
    → Represents l reg
    → Represents (reserve l) reg × ((reserve l).table_top < length (reserve l).string_list)
unfolding reserve
reserve-Represents {l} {reg} h = elim (Bool-cases (l.table_top == l.table_max)) [
  | inl full ↦ rw full (
    grown h,
    omega (
      arith,
      length-slots h,
      length-append l.string_list spare,
      length-replicate table_inc spare_slot,
    ),
  )
  | inr free ↦
      let not_full : l.table_top ≢ l.table_max = ground arith in
      rw free (h, omega (arith, length-slots h, not_full))
]

set-append :
    (xs : Registry) (slack : List (Option CString)) (n : ℕ) (v : CString)
    → n ≡ length xs
    → n < length (map some xs ++ slack)
    → (slack' : List (Option CString)) × (set (map some xs ++ slack) n (some v)
        ≡ map some (xs ++ v ∷ []) ++ slack')
set-append [] [] n v e h = absurd (omega arith)
set-append [] (o ∷ slack) n v e h = rw e (slack, refl)
set-append (x ∷ xs) slack zero v e h = absurd (omega arith)
set-append (x ∷ xs) slack (suc n) v e h =
    let (slack', e') = set-append xs slack n v (omega arith) (omega arith) in
    (slack', ap (λ t. some x ∷ t) e')

-- Storing a string in the free slot adds it to the registry.
pub stored-Represents :
    {l : LookupState} {reg : Registry} (value : CString)
    → Represents l reg
    → l.table_top < length l.string_list
    → Represents
        (record l {
          string_list = set l.string_list l.table_top (some value);
          table_top = l.table_top + 1;
        })
        (reg ++ value ∷ [])
stored-Represents {l} {reg} value h room =
    let (slack', e) = set-append reg h.slack l.table_top value h.top (rw h.slots at room) in
    record {
      slack = slack';
      slots = rw h.slots e;
      top = omega (arith, h.top, length-append reg (value ∷ []));
      limit = rw length-set h.limit;
    }
