-- ===== src/Adaptive.antt =====
-- libkieker/monitoring/controller/kieker_adaptive_monitoring.c: the list of classes that are left
-- out of the monitoring, or that alone are in it. What is printed is left out.
pub mod Load
pub mod Excludes
use kieker_lang_pack_c.Common.{
  ℕ, ◌+◌, ◌-◌, ◌*◌, ◌%◌, ◌^◌, List, [], ◌∷◌, length, Option, none, some, Bool, true, false,
  if◌then◌else◌, ◌==◌, ltb, take, drop, set, ◌++◌,
}
use mathlib.Core.Bool.{not}
use kieker_lang_pack_c.Word.{CString, chars, str_eq}
use kieker_lang_pack_c.Lookup.{c_string}
use kieker_lang_pack_c.Strings.{string_trim}

-- `kieker_adaptive_function_hashes`, `kieker_adaptive_excludes_size` and `kieker_adaptive_mode`
pub record AdaptiveState : Type 0 where
  pub function_hashes : List ℕ
  pub excludes_size : ℕ
  pub mode : Bool

-- `qsort` and `bsearch` of numbers with `kieker_adaptive_comp_ulong`.
pub record Sorting : Type 0 where
  pub qsort : List ℕ → List ℕ
  pub bsearch : ℕ → List ℕ → Bool

abbrev pub max_num_files : ℕ
max_num_files = 200

-- The loop of `kieker_adaptive_hash`, and the function.
unfoldable pub hash_loop : ℕ → CString → ℕ
hash_loop hash [] = hash
hash_loop hash (c ∷ str) = hash_loop ((hash * 2 ^ 5 + hash + c) % 2 ^ 64) str

unfoldable pub adaptive_hash : CString → ℕ
unfolding hash_loop
adaptive_hash str = hash_loop 5381 str

-- `kieker_adaptive_is_class_excluded`
unfoldable pub is_class_excluded : Sorting → AdaptiveState → CString → Bool
unfolding adaptive_hash
is_class_excluded os st class_signature =
    let l = adaptive_hash class_signature in
    let found = os.bsearch l (take st.excludes_size st.function_hashes) in
    if found then st.mode else not st.mode

-- The lines that `getline` reads from a file one after another, each with its line feed.
abbrev pub before_line : ℕ → List (List ℕ) → List (List ℕ)
before_line c [] = (c ∷ []) ∷ []
before_line c (line ∷ rest) = (c ∷ line) ∷ rest

unfoldable pub lines : List ℕ → List (List ℕ)
lines [] = []
lines (c ∷ file) =
    let rest = lines file in if c == b'\n' then (c ∷ []) ∷ rest else before_line c rest

abbrev pub ends_line : List ℕ → Bool
ends_line [] = false
ends_line (c ∷ []) = c == b'\n'
ends_line (c ∷ d ∷ line) = ends_line (d ∷ line)

-- Where the loop over the lines stands: the table and the number of hashes, or the table with which
-- it returned -4. No value of this is undefined behaviour.
pub data Loading : Type 0 where
  going : List ℕ → ℕ → Loading
  full : List ℕ → Loading

abbrev pub store_hash : ℕ → List ℕ → ℕ → Option Loading
store_hash l hashes i =
    if ltb i (length hashes)
    then if ltb max_num_files (i + 1)
      then some (full (set hashes i l))
      else some (going (set hashes i l) (i + 1))
    else none

-- The body of the loop, given the trimmed line; the pointer that the trimming returns is not used.
unfoldable pub load_line : Option (CString × ℕ) → List ℕ → ℕ → Option Loading
load_line none hashes i = none
load_line (some ([], start)) hashes i = some (going hashes i)
load_line (some (c ∷ line, start)) hashes i =
    if c == b'#' then some (going hashes i) else store_hash (adaptive_hash (c ∷ line)) hashes i

-- The size that `getline` is told.
abbrev pub line_size : ℕ
line_size = 256

-- `getline` puts a line with a final zero byte into a buffer of 255 bytes, of which it is told that it
-- has 256, and replaces the buffer by a larger one for a line that does not fit into 256. So a line
-- of 255 bytes is written past the end of the first buffer. The argument and the result say whether
-- the buffer has been replaced.
unfoldable pub getline : Bool → List ℕ → Option Bool
getline true line = some true
getline false line =
    if length line + 1 == line_size then none else some (ltb line_size (length line + 1))

unfoldable pub load_lines : Bool → List (List ℕ) → List ℕ → ℕ → Option Loading
unfolding load_line getline
load_lines grown [] hashes i = some (going hashes i)
load_lines grown (line ∷ rest) hashes i = elim (getline grown line) [
  | none ↦ none
  | some grown' ↦ elim (load_line (string_trim (c_string line)) hashes i) [
    | none ↦ none
    | some (full hashes') ↦ some (full hashes')
    | some (going hashes' i') ↦ load_lines grown' rest hashes' i'
  ]
]

abbrev pub equal_neighbours : List ℕ → Bool
equal_neighbours [] = false
equal_neighbours (h ∷ []) = false
equal_neighbours (h ∷ k ∷ hashes) =
    let rest = equal_neighbours (k ∷ hashes) in if h == k then true else rest

-- The negative result `-n`, an `int`.
abbrev pub negative : ℕ → ℕ
negative n = 2 ^ 32 - n

-- What follows the loop.
abbrev pub sort_hashes : Sorting → AdaptiveState → Option Loading → Option (ℕ × AdaptiveState)
sort_hashes os st none = none
sort_hashes os st (some (full hashes)) = some (negative 4, record st { function_hashes = hashes })
sort_hashes os st (some (going hashes i)) =
    let sorted = os.qsort (take i hashes) in
    some (
      if equal_neighbours sorted then negative 5 else 0,
      record st { function_hashes = sorted ++ drop i hashes; excludes_size = i },
    )

unfoldable pub load_in_mode :
    Sorting → AdaptiveState → Bool → Bool → List (List ℕ) → Option (ℕ × AdaptiveState)
unfolding load_lines
load_in_mode os st mode grown rest =
    sort_hashes os (record st { mode = mode }) (load_lines grown rest st.function_hashes 0)

-- The first line, and what follows it.
unfoldable pub load_header :
    Sorting → AdaptiveState → Option CString → Bool → List (List ℕ) → Option (ℕ × AdaptiveState)
unfolding load_in_mode
load_header os st none grown rest = none
load_header os st (some header) grown rest =
    if str_eq header (chars "EXCLUDE")
    then load_in_mode os st true grown rest
    else if str_eq header (chars "INCLUDE")
    then load_in_mode os st false grown rest
    else some (negative 3, st)

abbrev pub buffer_of : Option (CString × ℕ) → Option CString
buffer_of none = none
buffer_of (some (buffer, start)) = some buffer

unfoldable pub load_file : Sorting → AdaptiveState → List (List ℕ) → Option (ℕ × AdaptiveState)
unfolding load_header getline
load_file os st [] = some (negative 2, st)
load_file os st (line ∷ rest) = elim (getline false line) [
  | none ↦ none
  | some grown ↦
      load_header os st
        (if ends_line line then buffer_of (string_trim (c_string line)) else some (c_string line))
        grown rest
]

-- `kieker_adaptive_load_exclude_file`, given the bytes of the file, or `none` if it cannot be opened.
unfoldable pub load_exclude_file :
    Sorting → AdaptiveState → Option (List ℕ) → Option (ℕ × AdaptiveState)
unfolding load_file lines
load_exclude_file os st none = some (negative 1, st)
load_exclude_file os st (some file) = load_file os st (lines file)
