-- ===== src/Adaptive/Load.antt =====
-- The loading of a file with more classes than the table has places.
use kieker_lang_pack_c.Common.{
  ℕ, ◌+◌, ◌<◌, ◌≤◌, List, [], ◌∷◌, length, length-append, length-set, Option, none, some, Bool,
  true, false, ◌==◌, ltb, ◌≡◌, ◌⊎◌, refl, arith, inl, inr, Bool-cases, ◌∙◌,
}
use kieker_lang_pack_c.Word.{CString, chars, str_eq}
use kieker_lang_pack_c.Lookup.{c_string}
use kieker_lang_pack_c.Strings.{string_trim}
use kieker_lang_pack_c.Adaptive.{
  AdaptiveState, Sorting, Loading, going, full, max_num_files, adaptive_hash, lines, store_hash,
  getline, load_line, load_lines, load_in_mode, load_header, load_file, load_exclude_file,
}
use kieker_lang_pack_c.Adaptive.Excludes.{classes, class_of, behind_header, header_of}

-- What a loop that goes on has left to do: it has stored `n` classes more in a table of full size.
abbrev After : ℕ → ℕ → Option Loading → Type 0
After i n none = Unit {0}
After i n (some (full hashes)) = true ≡ false
After i n (some (going hashes j)) =
    (j ≡ i + n) × (j ≤ max_num_files) × (length hashes ≡ max_num_files)

store_hash-After :
    (l : ℕ) (hashes : List ℕ) (i : ℕ)
    → length hashes ≡ max_num_files
    → After i 1 (store_hash l hashes i)
store_hash-After l hashes i size = elim (Bool-cases (ltb i (length hashes))) [
  | inl room ↦
      let few : ltb max_num_files (i + 1) ≡ false = ground arith in
      rw (room, few) (refl, ground arith, length-set hashes i l ∙ size)
  | inr out ↦ rw out tt
]

load_line-After :
    (line : Option (CString × ℕ)) (hashes : List ℕ) (i : ℕ)
    → length hashes ≡ max_num_files
    → i ≤ max_num_files
    → After i (length (class_of line)) (load_line line hashes i)
unfolding load_line
load_line-After none hashes i size low = tt
load_line-After (some ([], start)) hashes i size low = (omega arith, low, size)
load_line-After (some (c ∷ line, start)) hashes i size low = elim (Bool-cases (c == b'#')) [
  | inl comment ↦ rw comment (omega arith, low, size)
  | inr entry ↦ rw entry (store_hash-After (adaptive_hash (c ∷ line)) hashes i size)
]

next-After :
    (i n : ℕ) (k : List ℕ → ℕ → Option Loading) (r : Option Loading)
    → After i n r
    → ((hashes : List ℕ)
        → i + n ≤ max_num_files
        → length hashes ≡ max_num_files
        → k hashes (i + n) ≡ none)
    → (elim r [
      | none ↦ none
      | some (full hashes) ↦ some (full hashes)
      | some (going hashes j) ↦ k hashes j
    ])
      ≡ none
next-After i n k none h next = refl
next-After i n k (some (full hashes)) h next = absurd (cc h)
next-After i n k (some (going hashes j)) (same, low, size) next =
    rw same (next hashes (omega arith) size)

read-none :
    {A : Type 0} (r : Option Bool) (k : Bool → Option A)
    → ((grown : Bool) → k grown ≡ none)
    → (elim r [ none ↦ none | some grown ↦ k grown ]) ≡ none
read-none none k h = refl
read-none (some grown) k h = h grown

load_lines_overflow :
    (grown : Bool) (ls : List (List ℕ)) (hashes : List ℕ) (i : ℕ)
    → length hashes ≡ max_num_files
    → i ≤ max_num_files
    → max_num_files < i + length (classes ls)
    → load_lines grown ls hashes i ≡ none
unfolding load_lines
load_lines_overflow grown [] hashes i size low much = absurd (omega arith)
load_lines_overflow grown (line ∷ rest) hashes i size low much =
    let t = string_trim (c_string line) in
    read-none (getline grown line)
      (λ grown'. elim (load_line t hashes i) [
        | none ↦ none
        | some (full hashes') ↦ some (full hashes')
        | some (going hashes' i') ↦ load_lines grown' rest hashes' i'
      ])
      (λ grown'.
        next-After i (length (class_of t)) (load_lines grown' rest) (load_line t hashes i)
          (load_line-After t hashes i size low)
          (λ hashes' low' size'.
            load_lines_overflow grown' rest hashes' (i + length (class_of t)) size' low'
              (omega (arith, much, length-append (class_of t) (classes rest)))))

module _ (os : Sorting) (st : AdaptiveState)
    (size : length st.function_hashes ≡ max_num_files) where
  load_header_overflow :
      (header : CString) (grown : Bool) (rest : List (List ℕ))
      → (header ≡ chars "EXCLUDE") ⊎ (header ≡ chars "INCLUDE")
      → max_num_files < length (classes rest)
      → load_header os st (some header) grown rest ≡ none
  unfolding load_header load_in_mode str_eq
  load_header_overflow header grown rest (inl exclude) much =
      rw exclude
        (rw (load_lines_overflow grown rest st.function_hashes 0 size (omega arith) (omega arith)))
  load_header_overflow header grown rest (inr include) much =
      rw include
        (rw (load_lines_overflow grown rest st.function_hashes 0 size (omega arith) (omega arith)))

  -- On a table of 200 hashes the loading of a file whose first line is `EXCLUDE` or `INCLUDE` and
  -- that has more than 200 classes has undefined behaviour: at the latest the hash of the 201st
  -- class is stored past the end of the table, before the test that would return -4.
  pub load_exclude_file_overflow :
      (file : List ℕ) {header : CString}
      → header_of (lines file) ≡ some header
      → (header ≡ chars "EXCLUDE") ⊎ (header ≡ chars "INCLUDE")
      → max_num_files < length (classes (behind_header (lines file)))
      → load_exclude_file os st (some file) ≡ none
  unfolding load_exclude_file load_file
  load_exclude_file_overflow file {header} headed mode much = go (lines file) headed much
    where
      go :
          (ls : List (List ℕ))
          → header_of ls ≡ some header
          → max_num_files < length (classes (behind_header ls))
          → load_file os st ls ≡ none
      go [] headed much = cc
      go (line ∷ rest) headed much =
          read-none (getline false line)
            (λ grown. load_header os st (header_of (line ∷ rest)) grown rest)
            (λ grown. rw headed (load_header_overflow header grown rest mode much))
