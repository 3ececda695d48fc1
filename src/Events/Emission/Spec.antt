-- ===== src/Events/Emission/Spec.antt =====
-- The rows that a snapshot should append: one for each task whose status is terminal and is not
-- the status in the baseline.
use ai_control_hud.Prelude.{
  ℕ, ◌+◌, String, Option, none, some, List, [], ◌∷◌, ◌++◌, Table, lookup, length,
}
use ai_control_hud.Domain.{Time, TaskStatus, TaskSummary, is_zero}
use ai_control_hud.Events.{Event, EventType}
use ai_control_hud.Events.Outbox.{Env, TaskRow, EventRow}
use ai_control_hud.Prelude.{if◌then◌else◌}

-- The event type that a status calls for, given the status in the baseline.
abbrev pub announce : Option TaskStatus → TaskStatus → Option EventType
announce (some TaskStatus.completed) TaskStatus.completed = none
announce _ TaskStatus.completed = some EventType.completed
announce (some TaskStatus.failed) TaskStatus.failed = none
announce _ TaskStatus.failed = some EventType.failed
announce _ _ = none

abbrev pub status_of : Option TaskRow → Option TaskStatus
status_of none = none
status_of (some r) = some r.status

-- The time of the task's last update, if it has one.
abbrev pub happened : Option Time → Time → Time
happened none now = now
happened (some t) now = if is_zero t then now else t

abbrev pub event_of : EventType → TaskSummary → Time → String → Event
event_of kind t now id = record {
  event_id = id;
  event_type = kind;
  occurred_at = happened t.updated_at now;
  task = record { id = t.id; title = t.title; workspace = t.workspace; status = t.status };
}

abbrev pub join : Option (List EventRow) → Option (List EventRow) → Option (List EventRow)
join (some a) (some b) = some (a ++ b)
join _ _ = none

abbrev pub or_nil : Option (List EventRow) → List EventRow
or_nil none = []
or_nil (some l) = l

module _ (env : Env) (draw : ℕ → Option String) (now : Time) (baseline : Table TaskRow) where
  abbrev pub row_for : ℕ → String → EventType → TaskSummary → String → EventRow
  row_for n id kind t json = record {
    local_seq = n + 1;
    event_id = id;
    event_type = kind;
    occurred_at = env.format (happened t.updated_at now);
    event_json = json;
    created_at = env.format now;
  }

  abbrev pub drawn : ℕ → EventType → TaskSummary → Option String → Option (List EventRow)
  drawn n kind t none = none
  drawn n kind t (some id) = elim (env.encode (event_of kind t now id)) [
    | none ↦ none
    | some json ↦ some (row_for n id kind t json ∷ [])
  ]

  -- The rows of the task at index i, where n is the highest key so far; none if there is no random
  -- id or no JSON for the event.
  abbrev pub rows_of_task : ℕ → ℕ → TaskSummary → Option (List EventRow)
  rows_of_task i n t = elim (announce (status_of (lookup t.id baseline)) t.status) [
    | none ↦ some []
    | some kind ↦ drawn n kind t (draw i)
  ]

  unfoldable pub announced : ℕ → ℕ → List TaskSummary → Option (List EventRow)
  announced i n [] = some []
  announced i n (t ∷ ts) =
      let here = rows_of_task i n t in join here (announced (i + 1) (n + length (or_nil here)) ts)
