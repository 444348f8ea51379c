-- ===== src/Lookup/Lines.antt =====
-- `kieker_lookup_create` reads the lines of a file, each with its line feed, as strings.
use kieker_lang_pack_c.Common.{ℕ, ◌+◌, ◌≤◌, List, [], ◌∷◌, length, ◌≢◌}
use kieker_lang_pack_c.Word.{CString}
use kieker_lang_pack_c.State.{State, Write}
use kieker_lang_pack_c.Registry.{Registry}
use kieker_lang_pack_c.Effect.{max_string}
use kieker_lang_pack_c.Controller.Announce.{announcement}

-- A line that is a string and that `kieker_controller_send_string` can send.
abbrev pub NoZero : List ℕ → Type 0
NoZero [] = Unit {0}
NoZero (c ∷ cs) = (c ≢ 0) × NoZero cs

abbrev pub ShortLines : List (List ℕ) → Type 0
ShortLines [] = Unit {0}
ShortLines (line ∷ rest) = (length line ≤ max_string) × NoZero line × ShortLines rest

-- The announcements of strings under consecutive numbers.
abbrev pub announce_lines : ℕ → ℕ → List CString → List Write
announce_lines socket n [] = []
announce_lines socket n (line ∷ rest) =
    announcement socket n line ∷ announce_lines socket (n + 1) rest
