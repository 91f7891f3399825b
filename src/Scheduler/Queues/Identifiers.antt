-- ===== src/Scheduler/Queues/Identifiers.antt =====
-- internal/gocli/start_tasks.go: parseStartUITaskScopedID and parseStartUITaskIssueID, by their second result,
-- and the functions on texts that they use.
use Prim.Native.Char.{code}
use nana.Prelude.{
  ℤ, String, Bool, true, false, ◌||◌, Option, none, some, ◌==◌, eqb, if◌then◌else◌, atoi,
  trim_space, cut_at,
}

-- strings.TrimPrefix, and `none` where the text does not begin with the prefix.
unfoldable pub cut_prefix : String → String → Option String
cut_prefix String.[] s = some s
cut_prefix (String.◌∷◌ c p) String.[] = none
cut_prefix (String.◌∷◌ c p) (String.◌∷◌ d s) =
    let rest = cut_prefix p s in if eqb (code c) (code d) then rest else none

abbrev pub or_text : String → Option String → String
or_text s none = s
or_text s (some t) = t

unfoldable pub trim_prefix : String → String → String
trim_prefix prefix s = or_text s (cut_prefix prefix s)

-- strings.Contains.
abbrev is_there : Option String → Bool
is_there none = false
is_there (some t) = true

unfoldable pub contains : String → String → Bool
contains part String.[] = is_there (cut_prefix part "")
contains part (String.◌∷◌ c s) =
    let rest = contains part s in is_there (cut_prefix part (String.◌∷◌ c s)) || rest

-- 58 is `:`.
abbrev scoped_parts : Option (String × String) → Option String
scoped_parts none = none
scoped_parts (some (repo, id)) =
    if trim_space repo == "" || trim_space id == "" then none else some (trim_space id)

unfoldable pub parse_scoped_id : String → String → Option String
parse_scoped_id prefix task_id = scoped_parts (cut_at 58 (trim_space (trim_prefix prefix task_id)))

-- 35 is `#`, which is there once.
abbrev one_part : String → Option (String × String) → Option ℤ
one_part number none = atoi (trim_space number)
one_part number (some more) = none

abbrev issue_parts : Option (String × String) → Option ℤ
issue_parts none = none
issue_parts (some (repo, number)) = one_part number (cut_at 35 number)

unfoldable pub parse_issue_id : String → Option ℤ
parse_issue_id task_id = issue_parts (cut_at 35 (trim_space (trim_prefix "issue:" task_id)))

-- The identifier of a planned item.
unfoldable pub listed_item_id : String → String
listed_item_id task_id = trim_space (trim_prefix "planned-item:" task_id)
