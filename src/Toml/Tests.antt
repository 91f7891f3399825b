-- ===== src/Toml/Tests.antt =====
-- The functions of internal/gocli/toml.go on concrete files.
use nana.Prelude.{String, true, ◌≡◌, refl, if◌then◌else◌}
use nana.Toml.Text.{replace_crlf}
use nana.Toml.{
  read_top_level_toml_value, read_top_level_toml_string, upsert_top_level_toml_string,
  escape_toml_string,
}
use nana.Toml.Assigned.{every, is_bare, is_inline}
use nana.Toml.RoundTrip.{
  is_text, is_plain, read_top_level_toml_string-upsert, read_top_level_toml_value-upsert_other,
}

abbrev sample : String
sample = "# top\nmodel = \"o3\" # note\nlimit = 12\n\n[tools]\nmodel = \"x\"\n"

sample-is_text : is_text sample ≡ true
unfolding every replace_crlf
sample-is_text = refl

bare : (is_bare "model" ≡ true) × (is_inline "gpt 5" ≡ true)
unfolding is_bare is_inline every
bare = (refl, refl)

read_top_level_toml_string-upsert_example :
    read_top_level_toml_string (upsert_top_level_toml_string sample "model" "gpt 5") "model"
    ≡ (if is_plain "gpt 5" then "gpt 5" else escape_toml_string "gpt 5")
read_top_level_toml_string-upsert_example =
    read_top_level_toml_string-upsert sample "model" "gpt 5" sample-is_text bare.0 bare.1

read_top_level_toml_value-upsert_other_example :
    read_top_level_toml_value (upsert_top_level_toml_string sample "model" "gpt 5") "limit"
    ≡ read_top_level_toml_value sample "limit"
read_top_level_toml_value-upsert_other_example =
    read_top_level_toml_value-upsert_other sample "model" "gpt 5" "limit" sample-is_text bare.0
      bare.1 refl
