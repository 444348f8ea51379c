-- ===== src/Examples/Classes.antt =====
-- The theorem about the classes that a file leaves out, with a sorting by insertion.
use kieker_lang_pack_c.Common.{ℕ, List, [], ◌∷◌, true, false, if◌then◌else◌, leb}
use kieker_lang_pack_c.Word.{chars}
use kieker_lang_pack_c.Adaptive.{Sorting, AdaptiveState}
use kieker_lang_pack_c.Adaptive.Excludes.{contains}
use kieker_lang_pack_c.Examples.{zeros}

insert : ℕ → List ℕ → List ℕ
insert l [] = l ∷ []
insert l (h ∷ hashes) = let rest = insert l hashes in if leb l h then l ∷ h ∷ hashes else h ∷ rest

sort : List ℕ → List ℕ
unfolding insert
sort [] = []
sort (h ∷ hashes) = insert h (sort hashes)

abbrev by_insertion : Sorting
by_insertion = record { qsort = sort; bsearch = contains }

abbrev nothing_loaded : AdaptiveState
nothing_loaded = record { function_hashes = zeros 200; excludes_size = 0; mode = false }

-- "Net" before "Log": their hashes are in the other order.
abbrev two_classes : List ℕ
two_classes = chars "EXCLUDE\nNet\nLog\n"

abbrev both_loaded : AdaptiveState
both_loaded = record {
  function_hashes = 193463527 ∷ 193465388 ∷ zeros 198;
  excludes_size = 2;
  mode = true;
}
