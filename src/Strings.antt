-- ===== src/Strings.antt =====
-- libkieker/monitoring/utilities/kieker_string.c. A string in a buffer that begins with it is the
-- list of its bytes, and a pointer into it is a position.
pub mod Trim
use kieker_lang_pack_c.Common.{
  ℕ, ◌+◌, [], ◌∷◌, Option, none, some, Bool, true, false, if◌then◌else◌, ◌==◌, leb,
}
use kieker_lang_pack_c.Word.{CString}

-- `isspace` in the locale "C": a space, and the bytes from the tabulator to the carriage return.
unfoldable pub isspace : ℕ → Bool
isspace c = if c == 32 then true else if leb 9 c then leb c 13 else false

-- `kieker_string_ltrim`: the position of the first byte that is no space, from the position `i` of
-- the string on.
unfoldable pub string_ltrim : ℕ → CString → ℕ
unfolding isspace
string_ltrim i [] = i
string_ltrim i (c ∷ string) =
    let rest = string_ltrim (i + 1) string in if isspace c then rest else i

abbrev pub kept : ℕ → Option CString → Option CString
kept c none = if isspace c then none else some (c ∷ [])
kept c (some string) = some (c ∷ string)

-- What `kieker_string_rtrim` leaves in the buffer. It goes back over the bytes from the end, and
-- nothing stops it at the start of the buffer: `none` is a read before that.
unfoldable pub string_rtrim : CString → Option CString
unfolding isspace
string_rtrim [] = none
string_rtrim (c ∷ string) = kept c (string_rtrim string)

abbrev at_position : ℕ → Option CString → Option (CString × ℕ)
at_position i none = none
at_position i (some buffer) = some (buffer, i)

-- `kieker_string_trim`: the buffer after it, and the position that is returned. Behind the position
-- that `kieker_string_ltrim` returns, `kieker_string_rtrim` goes back in the same buffer.
unfoldable pub string_trim : CString → Option (CString × ℕ)
unfolding string_ltrim string_rtrim
string_trim string = at_position (string_ltrim 0 string) (string_rtrim string)
