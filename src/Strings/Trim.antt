-- ===== src/Strings/Trim.antt =====
-- What `kieker_string_trim` leaves of a string.
use kieker_lang_pack_c.Common.{
  ℕ, ◌+◌, [], ◌∷◌, ◌++◌, length, some, none, true, false, ◌≡◌, refl, arith, append_assoc, ◌∙◌, ap,
}
use kieker_lang_pack_c.Word.{CString}
use kieker_lang_pack_c.Strings.{isspace, string_ltrim, string_rtrim, string_trim}

-- A string of spaces only.
abbrev pub Spaces : CString → Type 0
Spaces [] = Unit {0}
Spaces (c ∷ string) = (isspace c ≡ true) × Spaces string

string_ltrim-Spaces :
    (i : ℕ) (lead : CString) (c : ℕ) (rest : CString)
    → Spaces lead
    → isspace c ≡ false
    → string_ltrim i (lead ++ c ∷ rest) ≡ i + length lead
unfolding string_ltrim
string_ltrim-Spaces i [] c rest spaces other = rw other (omega arith)
string_ltrim-Spaces i (a ∷ lead) c rest (space, spaces) other =
    rw space (string_ltrim-Spaces (i + 1) lead c rest spaces other ∙ omega arith)

string_rtrim-Spaces : (trail : CString) → Spaces trail → string_rtrim trail ≡ none
unfolding string_rtrim
string_rtrim-Spaces [] spaces = refl
string_rtrim-Spaces (a ∷ trail) (space, spaces) = rw (string_rtrim-Spaces trail spaces, space)

string_rtrim-end :
    (front : CString) (d : ℕ) (trail : CString)
    → Spaces trail
    → isspace d ≡ false
    → string_rtrim (front ++ d ∷ trail) ≡ some (front ++ d ∷ [])
unfolding string_rtrim
string_rtrim-end [] d trail spaces other = rw (string_rtrim-Spaces trail spaces, other)
string_rtrim-end (a ∷ front) d trail spaces other = rw (string_rtrim-end front d trail spaces other)

-- A string that has a byte which is no space is cut behind the last such byte, and the pointer to
-- the first such byte is returned; so the returned string is the part between.
pub string_trim-Spaces :
    (lead core trail mid front : CString) (c d : ℕ)
    → Spaces lead
    → Spaces trail
    → core ≡ c ∷ mid
    → core ≡ front ++ d ∷ []
    → isspace c ≡ false
    → isspace d ≡ false
    → string_trim (lead ++ (core ++ trail)) ≡ some (lead ++ core, length lead)
unfolding string_trim
string_trim-Spaces lead core trail mid front c d before behind first last other_c other_d =
    let l : string_ltrim 0 (lead ++ (core ++ trail)) ≡ length lead =
      rw first (string_ltrim-Spaces 0 lead c (mid ++ trail) before other_c ∙ omega arith) in
    let whole : lead ++ (core ++ trail) ≡ (lead ++ front) ++ d ∷ trail =
      rw (last, append_assoc, append_assoc) in
    let kept_part : (lead ++ front) ++ d ∷ [] ≡ lead ++ core = rw (last, append_assoc) in
    let r : string_rtrim (lead ++ (core ++ trail)) ≡ some (lead ++ core) =
      ap string_rtrim whole
      ∙ string_rtrim-end (lead ++ front) d trail behind other_d
      ∙ ap (λ (s : CString). some s) kept_part in
    rw (l, r)

-- Of a string of spaces only, also the empty one, `kieker_string_trim` reads before the start of
-- the buffer, which is undefined behaviour.
pub string_trim-blank : (string : CString) → Spaces string → string_trim string ≡ none
unfolding string_trim
string_trim-blank string spaces = rw (string_rtrim-Spaces string spaces)
