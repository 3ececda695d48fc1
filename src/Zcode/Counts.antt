-- ===== src/Zcode/Counts.antt =====
-- Snapshots of agent/internal/collector/zcode/collector.go: their counts and how two are merged.
use ai_control_hud.Prelude.{
  ℕ, ℤ, pos, ◌+ℤ◌, String, Bool, true, false, Option, none, some, List, [], ◌∷◌, ◌++◌, length, leb,
}
use ai_control_hud.Domain.{TaskStatus, TaskSummary, ZCodeSummary}

-- `sessionIDs` is the list of its keys.
pub record Snapshot : Type 0 where
  pub summary : ZCodeSummary
  pub tasks : List TaskSummary
  pub session_ids : List String

abbrev pub no_counts : ZCodeSummary
no_counts = record { running = pos 0; waiting = pos 0; failed = pos 0; completed = pos 0 }

unfoldable pub add_status_count : ZCodeSummary → TaskStatus → ℤ → ZCodeSummary
add_status_count s TaskStatus.running n = record s { running = s.running +ℤ n }
add_status_count s TaskStatus.waiting n = record s { waiting = s.waiting +ℤ n }
add_status_count s TaskStatus.failed n = record s { failed = s.failed +ℤ n }
add_status_count s TaskStatus.completed n = record s { completed = s.completed +ℤ n }
add_status_count s _ n = s

-- The loop of `summarizeTasks`, and the one over the counted rows of the task index.
unfoldable pub count_statuses : ZCodeSummary → List TaskStatus → ZCodeSummary
unfolding add_status_count
count_statuses counts [] = counts
count_statuses counts (s ∷ ss) = count_statuses (add_status_count counts s (pos 1)) ss

abbrev pub statuses_of : List TaskSummary → List TaskStatus
statuses_of [] = []
statuses_of (t ∷ ts) = t.status ∷ statuses_of ts

unfoldable pub summarize_tasks : List TaskSummary → ZCodeSummary
unfolding count_statuses
summarize_tasks tasks = count_statuses no_counts (statuses_of tasks)

abbrev pub add_counts : ZCodeSummary → ZCodeSummary → ZCodeSummary
add_counts a b = record {
  running = a.running +ℤ b.running;
  waiting = a.waiting +ℤ b.waiting;
  failed = a.failed +ℤ b.failed;
  completed = a.completed +ℤ b.completed;
}

-- `if len(result.Tasks) >= limit { break }` before each task.
unfoldable pub fill : ℕ → List TaskSummary → List TaskSummary → List TaskSummary
fill limit tasks [] = tasks
fill limit tasks (t ∷ ts) = elim (leb limit (length tasks)) [
  | true ↦ tasks
  | false ↦ fill limit (tasks ++ t ∷ []) ts
]

unfoldable pub merge_two : Snapshot → Snapshot → ℕ → Snapshot
unfolding fill
merge_two a b limit = record {
  summary = add_counts a.summary b.summary;
  tasks = fill limit a.tasks b.tasks;
  session_ids = a.session_ids ++ b.session_ids;
}

unfoldable pub merge_snapshots : Option Snapshot → Option Snapshot → ℕ → Option Snapshot
unfolding merge_two
merge_snapshots none secondary limit = secondary
merge_snapshots (some a) none limit = some a
merge_snapshots (some a) (some b) limit = some (merge_two a b limit)

unfoldable pub snapshot_session_ids : Option Snapshot → List String
snapshot_session_ids none = []
snapshot_session_ids (some s) = s.session_ids

-- `snapshot != nil && len(snapshot.Tasks) > 0`
unfoldable pub has_tasks : Option Snapshot → Bool
has_tasks none = false
has_tasks (some s) = elim s.tasks [ [] ↦ false | _ ∷ _ ↦ true ]
