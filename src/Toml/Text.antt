-- ===== src/Toml/Text.antt =====
-- The functions of the package strings that internal/gocli/toml.go uses, by clauses on a text. A character is
-- given by its code.
use Prim.Native.Char.{Char, code}
use Prim.Native.String.{◌++◌}
use nana.Prelude.{ℕ, String, Bool, false, ◌&&◌, ◌||◌, List, [], ◌∷◌, ◌==◌, eqb, if◌then◌else◌}

-- Whether a text begins or ends with a character.
unfoldable pub begins : ℕ → String → Bool
begins n String.[] = false
begins n (String.◌∷◌ c s) = eqb (code c) n

unfoldable pub ends : ℕ → String → Bool
ends n String.[] = false
ends n (String.◌∷◌ c s) = let rest = ends n s in if s == "" then eqb (code c) n else rest

-- strings.HasSuffix.
unfoldable pub ends_with : String → String → Bool
ends_with suffix String.[] = suffix == ""
ends_with suffix (String.◌∷◌ c s) =
    let rest = ends_with suffix s in String.◌∷◌ c s == suffix || rest

-- The text in front of the first `#`, as the first part of strings.Split.
unfoldable pub before_hash : String → String
before_hash String.[] = ""
before_hash (String.◌∷◌ c s) =
    let rest = before_hash s in if eqb (code c) 35 then "" else String.◌∷◌ c rest

-- strings.Contains and strings.ReplaceAll for "\r\n"; 13 is `\r` and 10 `\n`.
unfoldable pub has_crlf : String → Bool
has_crlf String.[] = false
has_crlf (String.◌∷◌ c s) = let rest = has_crlf s in (eqb (code c) 13 && begins 10 s) || rest

unfoldable pub replace_crlf : String → String
replace_crlf String.[] = ""
replace_crlf (String.◌∷◌ c s) =
    let rest = replace_crlf s in if eqb (code c) 13 && begins 10 s then rest else String.◌∷◌ c rest

-- strings.ReplaceAll of a character by a text.
unfoldable pub replace_all : ℕ → String → String → String
replace_all n new String.[] = ""
replace_all n new (String.◌∷◌ c s) =
    let rest = replace_all n new s in if eqb (code c) n then new ++ rest else String.◌∷◌ c rest

-- strings.Split at each `\n`.
abbrev pub onto_first : Char → List String → List String
onto_first c [] = String.◌∷◌ c "" ∷ []
onto_first c (line ∷ lines) = String.◌∷◌ c line ∷ lines

unfoldable pub split_lines : String → List String
split_lines String.[] = "" ∷ []
split_lines (String.◌∷◌ c s) =
    let rest = split_lines s in if eqb (code c) 10 then "" ∷ rest else onto_first c rest

-- The text without its last character.
unfoldable pub drop_last : String → String
drop_last String.[] = ""
drop_last (String.◌∷◌ c s) = let rest = drop_last s in if s == "" then "" else String.◌∷◌ c rest
