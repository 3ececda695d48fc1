-- ===== src/Zcode/Feed.antt =====
-- How what `Collect` of agent/internal/collector/zcode/collector.go returns comes into the snapshot
-- of agent/internal/runtime/runtime.go.
use ai_control_hud.Prelude.{
  ◌-◌, ◌<◌, ◌≡◌, ◌≢◌, sym, subst, String, Bool, true, none, some, List, [], ◌++◌, length, take,
  Error, message, quoted, numbered, wrap, ok, err, Result-cases, inl, inr, Bool-cases, arith,
}
use mathlib.Core.List.{append-nil}
use ai_control_hud.Prelude.Result.{Result}
use ai_control_hud.Domain.{Time, Floating, TaskSummary}
use ai_control_hud.Snapshot.{SnapshotStore, get, new}
use ai_control_hud.Collect.{Outcome, Gathered, failed, collected, collect_zcode_once, initial_state}
use ai_control_hud.Collect.History.{
  Collection, Orderly, remember_all, collect_all, collections_shown,
}
use ai_control_hud.Collect.Shown.{IsShowable, shown}
use ai_control_hud.Zcode.Apart.{HasDistinctKeys, Returns}
use ai_control_hud.Zcode.Collected.{collect-IsSnapshot}
use ai_control_hud.Zcode.Collector.{
  Reading, collect, collect_live, with_history, without_history, live_and,
}
use ai_control_hud.Zcode.Counts.{Snapshot, has_tasks, merge_two}
use ai_control_hud.Zcode.Goal.{Settings}
use ai_control_hud.Zcode.Goals.{limit_of}
use ai_control_hud.Zcode.Loops.{fill-take}
use ai_control_hud.Zcode.Whole.{IsSnapshot}

-- `err.Error()`
abbrev pub error_text : Error → String
error_text (message text) = text
error_text (quoted text name) = text
error_text (numbered text i) = text
error_text (wrap text cause) = text

-- The two results of `Collect` as the collection loop takes them.
abbrev pub outcome_of : Result Snapshot → Outcome Gathered
outcome_of (err e) = failed (error_text e)
outcome_of (ok s) = collected (record { summary = s.summary; tasks = some s.tasks })

-- A list with these tasks in front.
abbrev pub StartsWith : List TaskSummary → List TaskSummary → Type 0
StartsWith front tasks = (more : List TaskSummary) × (tasks ≡ front ++ more)

module _ (digest : String → String) (c : Settings) where
  outcome-IsShowable :
      (r : Reading)
      → HasDistinctKeys r.sessions_turns
      → IsShowable (outcome_of (collect digest c r))
  outcome-IsShowable r d = elim (Result-cases (collect digest c r)) [
    | inr (e, fails) ↦ rw fails tt
    | inl (s, returned) ↦
        let h =
          subst (Returns (IsSnapshot (limit_of c))) returned (collect-IsSnapshot digest c r d) in
        rw returned (h.summary, h.tasks)
  ]

  -- Whatever the two files of ZCode hold, and whatever was collected since the start: after one
  -- more collection by `Collect`, the snapshot shows what it returned as of now, or after an error
  -- the data of the last success as stale, or an error without data where there was none. The
  -- clock of the task loop did not go back, what was collected before can be shown, and the turn
  -- log gives one state for each session.
  pub collect-shown :
      {F : Type 0} (fl : Floating F) (start now : Time) (version : String) (z k : Bool)
      (s : SnapshotStore F) (xs : List (Collection F)) (r : Reading)
      → 0 < start
      → version ≢ ""
      → new fl (initial_state start version z k) ≡ ok s
      → Orderly start xs now
      → HasDistinctKeys r.sessions_turns
      → (get fl
          (collect_zcode_once fl now (outcome_of (collect digest c r)) (collect_all fl xs s))).zcode
        ≡ shown (remember_all none xs) now (outcome_of (collect digest c r))
  collect-shown fl start now version z k s xs r p v h q d =
      collections_shown fl start now version z k s xs (outcome_of (collect digest c r)) p v h q
        (outcome-IsShowable r d)

  with_history-live :
      (live : Snapshot) (history : Result Snapshot)
      → has_tasks (some live) ≡ true
      → (s : Snapshot) × (with_history digest c (some live) history ≡ ok s)
        × StartsWith live.tasks s.tasks
  unfolding with_history live_and merge_two
  with_history-live live (err e) h = (live, ground arith, ([], sym (append-nil live.tasks)))
  with_history-live live (ok history) h = (
    merge_two live history (limit_of c),
    ground arith,
    (
      take (limit_of c - length live.tasks) history.tasks,
      fill-take (limit_of c) live.tasks history.tasks,
    ),
  )

  -- Live tasks are never lost to the task index: if the runtime database gives some, `Collect`
  -- succeeds and begins with them, whether the task index is there, can be read, or fails.
  pub collect-live :
      (r : Reading) (live : Snapshot)
      → collect_live digest c r ≡ ok (some live)
      → has_tasks (some live) ≡ true
      → (s : Snapshot) × (collect digest c r ≡ ok s) × StartsWith live.tasks s.tasks
  unfolding collect without_history
  collect-live r live returned h = elim (Bool-cases r.index_exists) [
    | inl there ↦ rw (collect, returned, there) (with_history-live live _ h)
    | inr absent ↦
        rw (collect, returned, absent) (live, ground arith, ([], sym (append-nil live.tasks)))
  ]
