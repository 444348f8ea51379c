-- ===== src/Lookup.antt =====
-- libkieker/monitoring/controller/kieker_lookup.c: the table of strings, in which the index of a
-- string is the number that stands for it on the wire. The copy of a string that the table keeps is
-- its value.
mod Find
mod Grow
pub mod Keys
pub mod Lines
use kieker_lang_pack_c.Common.{
  ℕ, zero, suc, ◌+◌, ◌-◌, ◌^◌, Option, none, some, List, [], ◌∷◌, ◌++◌, length, replicate, set,
  if◌then◌else◌, ◌==◌, ltb,
}
use kieker_lang_pack_c.Word.{CString, str_eq}
use kieker_lang_pack_c.State.{State, LookupState}
use kieker_lang_pack_c.Exec.{Exec, pure, fault, the, gets, modify, ◌>>=◌, ◌>>◌}
use kieker_lang_pack_c.Controller.{send_string}

-- `KIEKER_LOOKUP_STRING_BUF_SIZE` and `KIEKER_LOOKUP_TABLE_INC`
abbrev pub string_buf_size : ℕ
string_buf_size = 65535

abbrev pub table_inc : ℕ
table_inc = 1024

abbrev pub set_lookup : (LookupState → LookupState) → Exec (Unit {0})
set_lookup f = modify (λ s. record s { lookup = f s.lookup })

-- Makes room for one more string, `realloc` included.
unfoldable pub reserve : LookupState → LookupState
reserve l =
    if l.table_top == l.table_max
    then record l {
      table_max = l.table_max + table_inc;
      string_list = l.string_list ++ replicate table_inc none;
    }
    else l

-- `kieker_lookup_string_list[kieker_lookup_table_top++] = value`
unfoldable pub store_value : CString → Exec (Unit {0})
store_value value = do
  l ← gets (λ s. s.lookup)
  if ltb l.table_top (length l.string_list)
      then set_lookup (λ l. record l {
        string_list = set l.string_list l.table_top (some value);
        table_top = l.table_top + 1;
      })
      else fault

-- `kieker_lookup_string_list_add_value`
unfoldable pub string_list_add_value : CString → Exec (Unit {0})
unfolding reserve store_value
string_list_add_value string = do
  set_lookup reserve
  top ← gets (λ s. s.lookup.table_top)
  send_string string top
  store_value string

-- The loop of `kieker_lookup_find_key_by_string`: the number of rounds left, the slots from the
-- index `i` on, and `i`. The outer `none` is a slot that is not there or was never written.
unfoldable pub find_loop : ℕ → List (Option CString) → ℕ → CString → Option (Option ℕ)
find_loop zero slots i string = some none
find_loop (suc rounds) [] i string = none
find_loop (suc rounds) (none ∷ slots) i string = none
find_loop (suc rounds) (some value ∷ slots) i string =
    if str_eq value string then some (some i) else find_loop rounds slots (suc i) string

-- What follows the loop.
unfoldable pub found_or_add : Option ℕ → CString → Exec ℕ
found_or_add (some i) string = pure i
found_or_add none string = do
  string_list_add_value string
  top ← gets (λ s. s.lookup.table_top)
  pure (top - 1)

-- `kieker_lookup_find_key_by_string`
unfoldable pub find_key_by_string : CString → Exec ℕ
unfolding find_loop found_or_add
find_key_by_string string = do
  l ← gets (λ s. s.lookup)
  found ← the (find_loop l.table_top l.string_list 0 string)
  found_or_add found string

-- `fgets`: at most `room` bytes, up to a newline; the line and what is left of the file.
unfoldable pub fgets : ℕ → List ℕ → List ℕ × List ℕ
fgets zero file = ([], file)
fgets (suc room) [] = ([], [])
fgets (suc room) (c ∷ file) =
    let (line, rest) = fgets room file in if c == b'\n' then (c ∷ [], file) else (c ∷ line, rest)

-- The string in a buffer ends at the first zero byte.
unfoldable pub c_string : List ℕ → CString
c_string [] = []
c_string (c ∷ cs) = if c == 0 then [] else c ∷ c_string cs

-- The loop of `kieker_lookup_create`. A round reads one byte at least, so `length file` rounds do.
unfoldable pub create_loop : ℕ → List ℕ → ℕ → Exec ℕ
create_loop rounds [] lcount = pure lcount
create_loop zero (c ∷ file) lcount = fault
create_loop (suc rounds) (c ∷ file) lcount =
    let (line, rest) = fgets (string_buf_size - 1) (c ∷ file) in
    do string_list_add_value (c_string line); create_loop rounds rest (lcount + 1)

-- `kieker_lookup_create`, given the bytes of the file, or `none` if it cannot be opened. The result
-- is a 32-bit pattern.
unfoldable pub create : Option (List ℕ) → Exec ℕ
unfolding create_loop
create none = pure (2 ^ 32 - 1)
create (some file) = create_loop (length file) file 0
