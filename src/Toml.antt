-- ===== src/Toml.antt =====
-- internal/gocli/toml.go: reading and writing a top level key of a TOML file.
pub mod Text
mod Lines
mod Assigned
mod File
mod Blank
mod RoundTrip
mod Tests
use Prim.Native.Char.{code}
use Prim.Native.String.{◌++◌}
use nana.Prelude.{
  ℤ, String, Bool, true, false, not, ◌&&◌, ◌||◌, Option, none, some, List, [], ◌∷◌, ◌==◌,
  if◌then◌else◌, atoi, trim_space, cut_at, join, eqb,
}
use nana.Toml.Text.{
  has_crlf, replace_crlf, split_lines, before_hash, begins, ends, ends_with, replace_all, drop_last,
}

-- The lines of a file, and its line end.
unfoldable pub lines_of : String → List String
lines_of content = split_lines (replace_crlf content)

unfoldable pub line_end : String → String
line_end content = if has_crlf content then "\r\n" else "\n"

-- 35 is `#`, 91 `[`, 93 `]` and 61 `=`.
unfoldable pub is_skipped : String → Bool
is_skipped trimmed = trimmed == "" || begins 35 trimmed

unfoldable pub is_header : String → Bool
is_header trimmed = begins 91 trimmed && ends 93 (before_hash trimmed)

-- What stands behind the `=` of a line that assigns the key.
abbrev pub value_if : String → Option (String × String) → Option String
value_if key none = none
value_if key (some (name, value)) = if trim_space name == key then some value else none

unfoldable pub assigned : String → String → Option String
assigned key line = value_if key (cut_at 61 line)

-- The loop of readTopLevelTomlValue, with inTopLevel.
unfoldable pub read_lines : String → Bool → List String → Option String
read_lines key in_top_level [] = none
read_lines key in_top_level (line ∷ lines) =
    let rest = read_lines key in_top_level lines in
    let rest_of_table = read_lines key false lines in
    if is_skipped (trim_space line)
    then rest
    else if is_header (trim_space line)
    then rest_of_table
    else if not in_top_level
    then rest
    else elim (assigned key line) [
      | none ↦ rest
      | some value ↦ some (trim_space (before_hash value))
    ]

unfoldable pub read_top_level_toml_value : String → String → Option String
read_top_level_toml_value content key = read_lines key true (lines_of content)

-- 34 is `"` and 39 `'`.
abbrev pub is_quoted : String → Bool
is_quoted String.[] = false
is_quoted (String.◌∷◌ c s) = (eqb (code c) 34 && ends 34 s) || (eqb (code c) 39 && ends 39 s)

abbrev pub inner : String → String
inner String.[] = ""
inner (String.◌∷◌ c s) = drop_last s

unfoldable pub parse_toml_string_value : String → String
parse_toml_string_value value =
    if is_quoted (trim_space value) then inner (trim_space value) else trim_space value

abbrev pub parsed : Option String → String
parsed none = ""
parsed (some raw) = parse_toml_string_value raw

unfoldable pub read_top_level_toml_string : String → String → String
read_top_level_toml_string content key = parsed (read_top_level_toml_value content key)

abbrev pub number : Option String → Option ℤ
number none = none
number (some raw) = atoi raw

unfoldable pub read_top_level_toml_int : String → String → Option ℤ
read_top_level_toml_int content key = number (read_top_level_toml_value content key)

-- 92 is `\`.
unfoldable pub escape_toml_string : String → String
escape_toml_string value = replace_all 34 "\\\"" (replace_all 92 "\\\\" value)

unfoldable pub assignment : String → String → String
assignment key value = key ++ " = \"" ++ escape_toml_string value ++ "\""

-- The loop of UpsertTopLevelTomlString, with inTopLevel; `none` where no line is replaced.
abbrev pub behind_line : String → Option (List String) → Option (List String)
behind_line line none = none
behind_line line (some lines) = some (line ∷ lines)

unfoldable pub replace_line : String → String → Bool → List String → Option (List String)
replace_line key new in_top_level [] = none
replace_line key new in_top_level (line ∷ lines) =
    let rest = behind_line line (replace_line key new in_top_level lines) in
    let rest_of_table = behind_line line (replace_line key new false lines) in
    if is_skipped (trim_space line)
    then rest
    else if is_header (trim_space line)
    then rest_of_table
    else if not in_top_level
    then rest
    else elim (assigned key line) [ none ↦ rest | some value ↦ some (new ∷ lines) ]

-- In front of the first table, or behind all lines.
unfoldable pub insert_line : String → List String → List String
insert_line new [] = new ∷ []
insert_line new (line ∷ lines) =
    let rest = line ∷ insert_line new lines in
    if is_header (trim_space line) then new ∷ line ∷ lines else rest

unfoldable pub upsert_lines : String → String → List String → List String
upsert_lines key new lines = elim (replace_line key new true lines) [
  | some replaced ↦ replaced
  | none ↦ insert_line new lines
]

unfoldable pub with_line_end : String → String → String
with_line_end eol text = if ends_with eol text then text else text ++ eol

unfoldable pub upsert_top_level_toml_string : String → String → String → String
upsert_top_level_toml_string content key value =
    if trim_space content == ""
    then assignment key value ++ line_end content
    else (with_line_end (line_end content)
        (join (line_end content) (upsert_lines key (assignment key value) (lines_of content))))
