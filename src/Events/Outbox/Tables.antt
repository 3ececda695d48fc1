-- ===== src/Events/Outbox/Tables.antt =====
-- The tables of the outbox, what they rest on outside this repository, and transactions
-- (agent/internal/events/outbox.go, `Open`).
use ai_control_hud.Prelude.{
  ℕ, String, Bool, not, Option, none, some, List, [], Table, Error, message, ok, err, reject,
}
use ai_control_hud.Prelude.Result.{Result}
use ai_control_hud.Domain.{Time, TaskStatus}
use ai_control_hud.Events.{Event, EventType}

pub record Env : Type 0 where
  pub encode : Event → Option String
  pub decode : String → Option Event
  pub format : Time → String
  pub parse : String → Option Time
  -- The rank of a text under SQLite's `julianday`.
  pub julian : String → ℕ
  -- PRAGMA journal_mode says `wal`
  pub wal : Bool

-- A row of task_state, without its key.
pub record TaskRow : Type 0 where
  pub status : TaskStatus
  pub title : String
  pub workspace : Option String
  pub updated_at : Option String
  pub last_seen_at : String

-- A row of event_outbox.
pub record EventRow : Type 0 where
  pub local_seq : ℕ
  pub event_id : String
  pub event_type : EventType
  pub occurred_at : String
  pub event_json : String
  pub created_at : String

-- `meta` is the value of `initializedKey` in event_meta. The rows of event_outbox are held in the
-- order of their key; `last_seq` is the highest key that AUTOINCREMENT has given.
pub record Outbox : Type 0 where
  pub meta : Option String
  pub task_state : Table TaskRow
  pub event_outbox : List EventRow
  pub last_seq : ℕ

-- The tables that `Open` creates.
abbrev pub created : Outbox
created = record { meta = none; task_state = []; event_outbox = []; last_seq = 0 }

-- The statements of the operations, to say which of them the database fails.
pub data Statement : Type 0 where
  begin read_meta read_tasks mark_initialized commit : Statement
  select_pending count_events compact_tasks optimize read_journal_mode checkpoint read_stats :
      Statement
  insert_event upsert_task delete_event : ℕ → Statement

abbrev pub Io : Type 0
Io = Statement → Bool

abbrev pub exec : Io → Statement → String → Result (Unit {0})
exec io s context = reject (not (io s)) (message context)

-- `tx.Rollback` unless the transaction committed.
abbrev pub transact : Result Outbox → Outbox → Outbox × Option Error
transact (ok after) before = (after, none)
transact (err e) before = (before, some e)
