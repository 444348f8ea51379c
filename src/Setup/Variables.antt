-- ===== src/Setup/Variables.antt =====
-- The variables of the environment that configure the library.
use kieker_lang_pack_c.Common.{
  ℕ, ◌≤◌, some, leb, ltb, ◌≡◌, refl, Option-cases, ◌⊎◌, inl, inr, Bool-cases, ltb→lt, leb→le,
}
use kieker_lang_pack_c.Word.{CString}
use kieker_lang_pack_c.Setup.{Process, getenv_ushort}

-- With a default from 1 to 65535, the number that a variable of the environment gives is from 1
-- to 65535, and is the default or the number that the variable's text stands for.
pub getenv_ushort-bounds :
    (os : Process) (name : CString) (d : ℕ)
    → 1 ≤ d
    → d ≤ 65535
    → (1 ≤ getenv_ushort os name d)
      × (getenv_ushort os name d ≤ 65535)
      × ((getenv_ushort os name d ≡ d)
          ⊎ ((value : CString) × (os.getenv name ≡ some value)
              × (os.strtol value ≡ some (getenv_ushort os name d))))
unfolding getenv_ushort
getenv_ushort-bounds os name d low high = elim (Option-cases (os.getenv name)) [
  | inl unset ↦ rw unset (low, high, inl refl)
  | inr (value, found) ↦ elim (Option-cases (os.strtol value)) [
    | inl no_number ↦ rw (found, no_number) (low, high, inl refl)
    | inr (n, parsed) ↦ elim (Bool-cases (ltb 0 n)) [
      | inl positive ↦ elim (Bool-cases (leb n 65535)) [
        | inl small ↦
            rw (found, parsed, positive, small)
              (ltb→lt 0 n positive, leb→le n 65535 small, inr (value, refl, parsed))
        | inr large ↦ rw (found, parsed, positive, large) (low, high, inl refl)
      ]
      | inr negative ↦ rw (found, parsed, negative) (low, high, inl refl)
    ]
  ]
]
