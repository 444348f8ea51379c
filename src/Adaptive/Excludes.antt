-- ===== src/Adaptive/Excludes.antt =====
-- What a table of classes that has been loaded leaves out of the monitoring.
use kieker_lang_pack_c.Common.{
  ℕ, ◌≤◌, List, [], ◌∷◌, ◌++◌, map, length, Option, none, some, Bool, true, false, ◌≡◌, take, ◌==◌,
  if◌then◌else◌,
}
use kieker_lang_pack_c.Word.{CString, chars, str_eq}
use kieker_lang_pack_c.Lookup.{c_string}
use kieker_lang_pack_c.Strings.{string_trim}
use kieker_lang_pack_c.Adaptive.{
  AdaptiveState, Sorting, Loading, going, full, adaptive_hash, lines, ends_line, buffer_of,
}

-- The classes of a file: of its lines behind the first, those that are neither blank nor comments,
-- without the spaces at their ends.
abbrev pub class_of : Option (CString × ℕ) → List CString
class_of none = []
class_of (some ([], start)) = []
class_of (some (c ∷ line, start)) = if c == b'#' then [] else (c ∷ line) ∷ []

abbrev pub classes : List (List ℕ) → List CString
classes [] = []
classes (line ∷ rest) = class_of (string_trim (c_string line)) ++ classes rest

-- What a loop that is not over has stored.
abbrev Stored : List ℕ → Option Loading → Type 0
Stored expected none = Unit {0}
Stored expected (some (full hashes)) = Unit {0}
Stored expected (some (going hashes i)) = (take i hashes ≡ expected) × (i ≤ length hashes)

abbrev pub contains : ℕ → List ℕ → Bool
contains l [] = false
contains l (h ∷ hashes) = let rest = contains l hashes in if l == h then true else rest

abbrev pub IsSorted : List ℕ → Type 0
IsSorted [] = Unit {0}
IsSorted (h ∷ []) = Unit {0}
IsSorted (h ∷ k ∷ hashes) = (h ≤ k) × IsSorted (k ∷ hashes)

-- What `qsort` and `bsearch` promise.
pub record SortingLaws (os : Sorting) : Type 0 where
  pub length-qsort : (hashes : List ℕ) → length (os.qsort hashes) ≡ length hashes
  pub qsort-IsSorted : (hashes : List ℕ) → IsSorted (os.qsort hashes)
  pub contains-qsort : (l : ℕ) (hashes : List ℕ) → contains l (os.qsort hashes) ≡ contains l hashes
  pub bsearch_sorted :
      (l : ℕ) (hashes : List ℕ) → IsSorted hashes → os.bsearch l hashes ≡ contains l hashes

abbrev pub behind_header : List (List ℕ) → List (List ℕ)
behind_header [] = []
behind_header (header ∷ rest) = rest

-- The hashes of the classes in a file, and whether its first line, without its line feed and the
-- spaces at its ends, is the word for classes that are left out.
abbrev pub listed : List ℕ → List ℕ
listed file = map adaptive_hash (classes (behind_header (lines file)))

abbrev pub header_of : List (List ℕ) → Option CString
header_of [] = none
header_of (line ∷ rest) =
    if ends_line line then buffer_of (string_trim (c_string line)) else some (c_string line)

abbrev pub is_exclude : Option CString → Bool
is_exclude none = false
is_exclude (some header) = str_eq header (chars "EXCLUDE")

module _ (os : Sorting) (laws : SortingLaws os) (st : AdaptiveState) where
  -- A result of 0 comes with the mode and the table of the hashes, sorted.
  Loaded : List ℕ → Bool → Option (ℕ × AdaptiveState) → Type 0
  Loaded hashes mode none = Unit {0}
  Loaded hashes mode (some (code, st')) =
      code ≡ 0 → (take st'.excludes_size st'.function_hashes ≡ os.qsort hashes) × (st'.mode ≡ mode)
