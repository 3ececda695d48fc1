-- ===== src/Zcode/Sessions.antt =====
-- `collectRuntimeSessionsExcluding` of agent/internal/collector/zcode/runtime_session.go. Its second
-- result, which `Collect` drops, is left out.
use ai_control_hud.Prelude.{
  ℕ, pos_part, String, Bool, true, false, not, ◌&&◌, ◌||◌, Option, none, some, List, [], ◌∷◌,
  length, leb, ltb, lookup, Table, select, sort_by, if◌then◌else◌, message, ok, err, str_eq,
  trim_text,
}
use ai_control_hud.Prelude.Result.{Result}
use ai_control_hud.Domain.{Time, TaskStatus, TaskSummary, is_zero, after, task_eq}
use ai_control_hud.Zcode.Status.{normalize_status}
use ai_control_hud.Zcode.TurnLog.{TurnLogState, active}
use ai_control_hud.Zcode.Counts.{Snapshot}
use ai_control_hud.Zcode.Database.{
  RuntimeDb, SessionRow, UsageMeta, usage_query, verify_table_columns, runtime_session_columns,
  runtime_usage_columns, usage_rows, load_runtime_session_meta,
}
use ai_control_hud.Zcode.Goal.{Settings}
use ai_control_hud.Zcode.Goals.{Found, nothing_found, found, snapshot_of, limit_of}
use ai_control_hud.Zcode.Values.{
  text_or_empty, has, bounded, truncate, first_non_empty, optional_string, workspace_label,
  timestamp, is_within, whole_seconds, task_id_hash,
}

abbrev pub session_title : String → String
session_title title = if str_eq title "" then "ZCode session" else title

module _ (digest : String → String) where
  unfoldable pub runtime_session_task :
      String → SessionRow → TaskStatus → Time → Time → Time → TaskSummary
  runtime_session_task id meta status now started updated = record {
    id = task_id_hash digest "runtime-session" id;
    title =
        truncate (trim_text (session_title (first_non_empty 500 (text_or_empty meta.title ∷ []))))
          500;
    workspace =
        optional_string
          (workspace_label (text_or_empty meta.path ∷ text_or_empty meta.directory ∷ []));
    status = status;
    started_at = some started;
    updated_at = some updated;
    duration_seconds = some (whole_seconds now started);
    activity = none;
    changes = none;
  }

-- The active turns of the sessions that are not excluded, the latest first.
unfoldable pub active_turns :
    Settings → Time → List String → Table TurnLogState → Table TurnLogState
active_turns c now exclude turns =
    sort_by
      (λ (a : String × TurnLogState) (b : String × TurnLogState).
        after a.1.updated_at b.1.updated_at)
      (select
        (λ (e : String × TurnLogState).
          not (has exclude e.0) && active now (pos_part c.turn_fresh_seconds) e.1)
        turns)

abbrev pub turn_start : TurnLogState → Time
turn_start s = if is_zero s.started_at then s.updated_at else s.started_at

-- The seconds for which a request that is under way counts.
abbrev pub fresh_for : Settings → ℕ
fresh_for c =
    let seconds = bounded c.heartbeat_seconds 120 3600 in if ltb seconds 600 then 600 else seconds

-- A turn event as late as the request closes it.
abbrev pub is_closed : Option TurnLogState → Option Time → Bool
is_closed none started = false
is_closed (some s) none = not (is_zero s.updated_at)
is_closed (some s) (some t) = not (is_zero s.updated_at) && not (after t s.updated_at)

module _ (digest : String → String) (c : Settings) (now : Time) (turns : Table TurnLogState) where
  -- The loop over the active turns: `full` tells that the limit ended it.
  unfoldable pub add_turns : RuntimeDb → ℕ → Table TurnLogState → Found → Result (Bool × Found)
  add_turns db limit [] f = ok (false, f)
  add_turns db limit ((id, s) ∷ rest) f = elim (load_runtime_session_meta db id) [
    | err e ↦ err (message "ZCode runtime session database read failed")
    | ok none ↦ add_turns db limit rest f
    | ok (some meta) ↦
        let g = found f id (
          runtime_session_task digest id meta TaskStatus.running now (turn_start s) s.updated_at) in
        elim (leb limit (length g.tasks)) [
          | true ↦ ok (true, g)
          | false ↦ add_turns db limit rest g
        ]
  ]

  -- What the newest usage row of a session shows, if anything.
  unfoldable pub usage_task : UsageMeta → Option TaskSummary
  usage_task row =
      let id = row.usage.session_id in
      let status = normalize_status (text_or_empty row.usage.status) in
      let started = timestamp row.usage.started_at in
      if is_closed (lookup id turns) started then none else elim started [
        | none ↦ none
        | some t ↦
            if not (is_within now t (fresh_for c))
            then none
            else if not (task_eq status TaskStatus.running)
                && not (task_eq status TaskStatus.waiting)
            then none
            else some (runtime_session_task digest id row.meta status now t t)
      ]

  -- The loop over the usage rows.
  unfoldable pub add_usages :
      ℕ → List String → List (Option UsageMeta) → List String → Found → Result Found
  unfolding usage_task
  add_usages limit exclude [] seen f = ok f
  add_usages limit exclude (none ∷ rows) seen f =
      err (message "ZCode runtime session database read failed")
  add_usages limit exclude (some row ∷ rows) seen f =
      let id = row.usage.session_id in
      elim (has exclude id || has seen id) [
        | true ↦ add_usages limit exclude rows seen f
        | false ↦ elim (usage_task row) [
          | none ↦ add_usages limit exclude rows (id ∷ seen) f
          | some task ↦
              let g = found f id task in
              elim (leb limit (length g.tasks)) [
                | true ↦ ok g
                | false ↦ add_usages limit exclude rows (id ∷ seen) g
              ]
        ]
      ]

  unfoldable pub fill_up : RuntimeDb → ℕ → List String → Bool × Found → Result (Option Snapshot)
  unfolding snapshot_of add_usages
  fill_up db limit exclude (true, f) = ok (snapshot_of f)
  fill_up db limit exclude (false, f) =
      if not (db.answers usage_query)
      then err (message "ZCode runtime session database read failed")
      else elim (add_usages limit exclude (usage_rows db limit) f.session_ids f) [
        | err e ↦ err e
        | ok g ↦ ok (snapshot_of g)
      ]

  unfoldable pub collect_runtime_sessions_excluding :
      RuntimeDb → List String → Result (Option Snapshot)
  unfolding add_turns fill_up
  collect_runtime_sessions_excluding db exclude =
      if not db.opens
      then err (message "ZCode runtime session database read failed")
      else if not (verify_table_columns (db.columns "session") runtime_session_columns)
          || not (verify_table_columns (db.columns "model_usage") runtime_usage_columns)
      then ok none
      else elim (add_turns db (limit_of c) (active_turns c now exclude turns) nothing_found) [
        | err e ↦ err e
        | ok (full, f) ↦ fill_up db (limit_of c) exclude (full, f)
      ]
