-- ===== src/RepoLock/Record.antt =====
-- internal/gocli/repo_access_lock.go: the record of a lock, its label and its age. A timestamp is the
-- time in nanoseconds that it parses to, `none` if it does not parse. The version and the process id
-- of a record, which nothing reads, are left out.
use nana.Prelude.{
  ℕ, ◌+◌, String, Bool, true, Option, none, some, List, [], ◌∷◌, ◌==◌, ltb, if◌then◌else◌,
  trim_space, default_string, join,
}
use Prim.Native.String.{◌++◌}

pub data Mode : Type 0 where
  read write : Mode

abbrev pub mode_text : Mode → String
mode_text read = "read"
mode_text write = "write"

pub record Owner : Type 0 where
  pub token : String
  pub backend : String
  pub run_id : String
  pub purpose : String
  pub label : String

pub record LockRecord : Type 0 where
  pub token : String
  pub mode : Mode
  pub repo_path : String
  pub backend : String
  pub run_id : String
  pub purpose : String
  pub label : String
  pub created_at : Option ℕ
  pub updated_at : Option ℕ

abbrev pub stale_threshold : ℕ
stale_threshold = 30000000000

abbrev pub acquire_timeout : ℕ
acquire_timeout = 5000000000

-- `made` is the token made of the purpose and the time, for an owner without one.
unfoldable pub build_record : String → String → Mode → Owner → ℕ → LockRecord
build_record made repo_path mode owner now = record {
  token = (if trim_space owner.token == "" then made else trim_space owner.token);
  mode = mode;
  repo_path = repo_path;
  backend = trim_space owner.backend;
  run_id = trim_space owner.run_id;
  purpose = trim_space owner.purpose;
  label = trim_space owner.label;
  created_at = some now;
  updated_at = some now;
}

abbrev is_older : ℕ → Option ℕ → Bool
is_older now none = true
is_older now (some updated_at) = ltb (updated_at + stale_threshold) now

unfoldable pub record_stale : ℕ → LockRecord → Bool
record_stale now r = is_older now r.updated_at

abbrev kept_parts : List String → List String
kept_parts [] = []
kept_parts (part ∷ parts) =
    let rest = kept_parts parts in if trim_space part == "" then rest else trim_space part ∷ rest

abbrev or_token : String → List String → List String
or_token token [] = default_string (trim_space token) "unknown-holder" ∷ []
or_token token (part ∷ parts) = part ∷ parts

unfoldable pub record_label : LockRecord → String
record_label r =
    join "/" (or_token r.token (kept_parts (r.label ∷ r.backend ∷ r.run_id ∷ r.purpose ∷ [])))

unfoldable pub read_lock_busy_error : String → Option LockRecord → String
unfolding record_label
read_lock_busy_error path writer =
    "repo read lock busy for " ++ path ++ ": active write lock held by " ++ elim writer [
      | none ↦ "another writer"
      | some r ↦ if trim_space r.token == "" then "another writer" else record_label r
    ]

abbrev labels_of : List LockRecord → List String
labels_of [] = []
labels_of (r ∷ records) = record_label r ∷ labels_of records

abbrev holding_readers : List String → String
holding_readers [] = "waiting for active readers to finish"
holding_readers (label ∷ labels) = "active read locks held by " ++ join ", " (label ∷ labels)

unfoldable pub write_lock_busy_error : String → Option LockRecord → List LockRecord → String
unfolding record_label
write_lock_busy_error path writer readers =
    let waiting = holding_readers (labels_of readers) in
    "repo write lock busy for " ++ path ++ ": " ++ elim writer [
      | none ↦ waiting
      | some r ↦
          if trim_space r.token == ""
          then waiting
          else "active write lock held by " ++ record_label r
    ]

pub record HolderSnapshot : Type 0 where
  pub label : String
  pub backend : String
  pub run_id : String
  pub purpose : String
  pub updated_at : Option ℕ
  pub stale : Bool

unfoldable pub holder_snapshot : ℕ → LockRecord → HolderSnapshot
holder_snapshot now r = record {
  label = record_label r;
  backend = trim_space r.backend;
  run_id = trim_space r.run_id;
  purpose = trim_space r.purpose;
  updated_at = r.updated_at;
  stale = record_stale now r;
}
