-- ===== src/Scheduler/Select.antt =====
-- internal/gocli/start_scheduler.go: selectNextTask and nextStartRepoIndex.
use nana.Prelude.{
  ℕ, ◌+◌, ◌%◌, String, Option, none, some, List, [], ◌∷◌, ◌==◌, if◌then◌else◌, length,
}
use nana.Scheduler.State.{Coordinator, Task}

abbrev pub service_queue : String
service_queue = "service"

abbrev pub implementation_queue : String
implementation_queue = "implementation"

pub record Selection : Type 0 where
  pub coordinator : Coordinator
  pub task : Option Task
  pub service : List Task
  pub implementation : List Task

unfoldable pub select_next_task : List Task → List Task → Coordinator → Selection
select_next_task [] [] c = record {
  coordinator = c;
  task = none;
  service = [];
  implementation = [];
}
select_next_task [] (t ∷ implementation) c = record {
  coordinator = record c { next_queue = service_queue };
  task = some t;
  service = [];
  implementation = implementation;
}
select_next_task (t ∷ service) [] c = record {
  coordinator = record c { next_queue = implementation_queue };
  task = some t;
  service = service;
  implementation = [];
}
select_next_task (s ∷ service) (t ∷ implementation) c =
    if c.next_queue == implementation_queue
    then (record {
      coordinator = record c { next_queue = service_queue };
      task = some t;
      service = s ∷ service;
      implementation = implementation;
    })
    else (record {
      coordinator = record c { next_queue = implementation_queue };
      task = some s;
      service = service;
      implementation = t ∷ implementation;
    })

-- The loop of nextStartRepoIndex: `index` counts from the front, and `count` is the length of all.
unfoldable pub index_after : ℕ → ℕ → List String → String → ℕ
index_after count index [] repo = 0
index_after count index (candidate ∷ rest) repo =
    if candidate == repo then (index + 1) % count else index_after count (index + 1) rest repo

unfoldable pub next_start_repo_index : List String → String → ℕ
unfolding index_after
next_start_repo_index [] repo = 0
next_start_repo_index (r ∷ rest) repo = index_after (length (r ∷ rest)) 0 (r ∷ rest) repo
