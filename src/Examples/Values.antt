-- ===== src/Examples/Values.antt =====
-- The theorems about strings at concrete values.
use kieker_lang_pack_c.Common.{◌++◌, some, none, ◌≡◌, refl}
use kieker_lang_pack_c.Word.{chars}
use kieker_lang_pack_c.Strings.{isspace, string_trim}
use kieker_lang_pack_c.Strings.Trim.{string_trim-Spaces, string_trim-blank}

-- Two spaces, "a b", and a line feed.
string_trim-Spaces_example :
    string_trim (chars "  " ++ (chars "a b" ++ chars "\n")) ≡ some (chars "  " ++ chars "a b", 2)
unfolding isspace
string_trim-Spaces_example =
    string_trim-Spaces (chars "  ") (chars "a b") (chars "\n") (chars " b") (chars "a ") 97 98
      (refl, (refl, tt)) (refl, tt) refl refl refl refl

-- An empty line.
string_trim-blank_example : string_trim (chars "\n") ≡ none
unfolding isspace
string_trim-blank_example = string_trim-blank (chars "\n") (refl, tt)
