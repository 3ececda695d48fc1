-- ===== src/Events/Outbox/Observe.antt =====
-- `Observe` of agent/internal/events/outbox.go and what it calls.
use ai_control_hud.Prelude.{
  ℕ, ◌+◌, String, Bool, true, false, not, ◌&&◌, ◌||◌, Option, none, some, List, [], ◌∷◌, ◌++◌, any,
  str_eq, Table, lookup, upsert, Error, message, ok, err, ◌>>=◌, ◌>>◌, if◌then◌else◌,
}
use ai_control_hud.Prelude.Result.{Result}
use ai_control_hud.Domain.{
  Time, HudState, TaskStatus, TaskSummary, SourceStatus, source_eq, task_eq, is_zero,
}
use ai_control_hud.Events.{Event, EventType, validate}
use ai_control_hud.Events.Outbox.Tables.{
  Env, TaskRow, EventRow, Outbox, Io, exec, transact, begin, read_meta, read_tasks,
  mark_initialized, commit, insert_event, upsert_task,
}

unfoldable pub baseline_initialized : Outbox → Bool
baseline_initialized db = elim db.meta [ none ↦ false | some v ↦ str_eq v "1" ]

unfoldable pub terminal : TaskStatus → Bool
terminal s = task_eq s TaskStatus.completed || task_eq s TaskStatus.failed

event_type_for : TaskStatus → Option EventType
event_type_for TaskStatus.completed = some EventType.completed
event_type_for TaskStatus.failed = some EventType.failed
event_type_for _ = none

occurred : TaskSummary → Time → Time
occurred task fallback = elim task.updated_at [
  | none ↦ fallback
  | some t ↦ if is_zero t then fallback else t
]

checked : Event → Result Event
checked e = validate e >> ok e

-- `event_id` is what `newEventID` returns, none if the random source fails.
unfoldable pub event_for_task : TaskSummary → Time → Option String → Result Event
unfolding event_type_for occurred checked
event_for_task task fallback event_id = elim (event_type_for task.status) [
  | none ↦ err (message "task is not terminal")
  | some kind ↦ elim event_id [
    | none ↦ err (message "generate event id")
    | some id ↦ checked (record {
      event_id = id;
      event_type = kind;
      occurred_at = occurred task fallback;
      task = record {
        id = task.id;
        title = task.title;
        workspace = task.workspace;
        status = task.status;
      };
    })
  ]
]

-- INSERT INTO event_outbox; event_id is UNIQUE.
unfoldable pub append_event : Env → Time → Event → String → Outbox → Result Outbox
append_event env observed_at event payload db =
    if any (λ (r : EventRow). str_eq r.event_id event.event_id) db.event_outbox
    then err (message "append task event")
    else ok (record db {
      event_outbox =
          db.event_outbox
          ++ record {
            local_seq = db.last_seq + 1;
            event_id = event.event_id;
            event_type = event.event_type;
            occurred_at = env.format event.occurred_at;
            event_json = payload;
            created_at = env.format observed_at;
          }
            ∷ [];
      last_seq = db.last_seq + 1;
    })

unfoldable pub row_of : Env → Time → TaskSummary → TaskRow
row_of env observed_at task = record {
  status = task.status;
  title = task.title;
  workspace = task.workspace;
  updated_at = elim task.updated_at [ none ↦ none | some t ↦ some (env.format t) ];
  last_seen_at = env.format observed_at;
}

-- Is the task's status a new terminal one, given the statuses that were loaded first?
unfoldable pub is_transition : Table TaskRow → TaskSummary → Bool
unfolding terminal
is_transition previous task = terminal task.status && elim (lookup task.id previous) [
  | none ↦ true
  | some prior ↦ not (task_eq prior.status task.status)
]

payload_of : Env → Event → Result String
payload_of env e = elim (env.encode e) [ none ↦ err (message "encode task event") | some p ↦ ok p ]

-- The event of one task, at index i of the snapshot.
unfoldable pub emit :
    Env → Io → (ℕ → Option String) → Time → ℕ → TaskSummary → Outbox → Result Outbox
unfolding payload_of
emit env io draw observed_at i task db = do
  event ← event_for_task task observed_at (draw i)
  payload ← payload_of env event
  exec io (insert_event i) "append task event"
  append_event env observed_at event payload db

unfoldable pub save : Env → Time → TaskSummary → Outbox → Outbox
save env observed_at task db = record db {
  task_state = upsert task.id (λ _. row_of env observed_at task) db.task_state;
}

-- The `if` of the loop of `Observe`.
unfoldable pub emit_if :
    Bool → Env → Io → (ℕ → Option String) → Time → ℕ → TaskSummary → Outbox → Result Outbox
emit_if true env io draw observed_at i task db = emit env io draw observed_at i task db
emit_if false env io draw observed_at i task db = ok db

-- One round of the loop of `Observe`.
unfoldable pub observe_task :
    Env
    → Io
    → (ℕ → Option String)
    → Time
    → Bool
    → Table TaskRow
    → ℕ
    → TaskSummary
    → Outbox
    → Result Outbox
observe_task env io draw observed_at initialized previous i task db = do
  db' ← emit_if (initialized && is_transition previous task) env io draw observed_at i task db
  exec io (upsert_task i) "persist task event baseline"
  ok (save env observed_at task db')

unfoldable pub observe_tasks :
    Env
    → Io
    → (ℕ → Option String)
    → Time
    → Bool
    → Table TaskRow
    → ℕ
    → List TaskSummary
    → Outbox
    → Result Outbox
observe_tasks env io draw observed_at initialized previous i [] db = ok db
observe_tasks env io draw observed_at initialized previous i (task ∷ tasks) db = do
  db' ← observe_task env io draw observed_at initialized previous i task db
  observe_tasks env io draw observed_at initialized previous (i + 1) tasks db'

mark : Io → Bool → Outbox → Result Outbox
mark io true db = ok db
mark io false db =
    exec io mark_initialized "persist event baseline initialization"
    >> ok (record db { meta = some "1" })

-- The transaction of `Observe`.
unfoldable pub observe_tx :
    Env → Io → (ℕ → Option String) → Time → List TaskSummary → Outbox → Result Outbox
unfolding mark
observe_tx env io draw observed_at tasks db = do
  exec io begin "begin event observation"
  exec io read_meta "read event baseline state"
  exec io read_tasks "read task event baseline"
  let initialized = baseline_initialized db
  db' ← observe_tasks env io draw observed_at initialized db.task_state 0 tasks db
  db'' ← mark io initialized db'
  exec io commit "commit event observation"
  ok db''

unfoldable pub observe :
    {F : Type 0}
    → Env
    → Io
    → (ℕ → Option String)
    → HudState F
    → Time
    → Outbox
    → Outbox × Option Error
observe env io draw state observed_at db =
    if not (source_eq state.zcode.health.status SourceStatus.ok)
    then (db, none)
    else elim state.zcode.tasks [
      | none ↦ (db, none)
      | some tasks ↦ transact (observe_tx env io draw observed_at tasks db) db
    ]
