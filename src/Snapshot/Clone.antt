-- ===== src/Snapshot/Clone.antt =====
-- `clone` of agent/internal/store/snapshot.go, field by field.
use ai_control_hud.Prelude.{◌≡◌, Option, List}
use ai_control_hud.Prelude.{copy, clone_with, clone_each, copy-eq, clone_with-id, clone_each-id}
use ai_control_hud.Domain.{
  HudState, SourceHealth, TaskChanges, TaskSummary, CreditBalance, UsageWindow, UsageSummary,
}

clone_changes : TaskChanges → TaskChanges
clone_changes c = record { additions = copy c.additions; deletions = copy c.deletions }

clone_task : TaskSummary → TaskSummary
unfolding clone_changes
clone_task t = record t {
  workspace = copy t.workspace;
  started_at = copy t.started_at;
  updated_at = copy t.updated_at;
  duration_seconds = copy t.duration_seconds;
  activity = copy t.activity;
  changes = clone_with clone_changes t.changes;
}

clone_health : SourceHealth → SourceHealth
clone_health h = record h { last_success_at = copy h.last_success_at; message = copy h.message }

module _ {F : Type 0} where
  clone_credit : CreditBalance F → CreditBalance F
  clone_credit c = record { remaining = copy c.remaining; limit = copy c.limit; unit = copy c.unit }

  clone_window : UsageWindow F → UsageWindow F
  clone_window w = record w { used_percent = copy w.used_percent; reset_at = copy w.reset_at }

  clone_usage : UsageSummary F → UsageSummary F
  unfolding clone_credit clone_window
  clone_usage u = record {
    plan = copy u.plan;
    credit = clone_with clone_credit u.credit;
    windows = clone_with (clone_each clone_window) u.windows;
  }

  pub clone : HudState F → HudState F
  unfolding clone_task clone_health clone_usage
  clone s = record s {
    zcode = record {
      health = clone_health s.zcode.health;
      summary = copy s.zcode.summary;
      tasks = clone_with (clone_each clone_task) s.zcode.tasks;
    };
    command_code = record {
      health = clone_health s.command_code.health;
      usage = clone_with clone_usage s.command_code.usage;
    };
  }

clone_changes-eq : (c : TaskChanges) → clone_changes c ≡ c
unfolding clone_changes
clone_changes-eq c = simp copy-eq

clone_task-eq : (t : TaskSummary) → clone_task t ≡ t
unfolding clone_task
clone_task-eq t = simp (copy-eq, clone_with-id clone_changes clone_changes-eq)

clone_health-eq : (h : SourceHealth) → clone_health h ≡ h
unfolding clone_health
clone_health-eq h = simp copy-eq

clone_tasks-eq : (l : Option (List TaskSummary)) → clone_with (clone_each clone_task) l ≡ l
clone_tasks-eq = clone_with-id (clone_each clone_task) (clone_each-id clone_task clone_task-eq)

module _ {F : Type 0} where
  clone_credit-eq : (c : CreditBalance F) → clone_credit c ≡ c
  unfolding clone_credit
  clone_credit-eq c = simp copy-eq

  clone_window-eq : (w : UsageWindow F) → clone_window w ≡ w
  unfolding clone_window
  clone_window-eq w = simp copy-eq

  clone_windows-eq :
      (l : Option (List (UsageWindow F))) → clone_with (clone_each clone_window) l ≡ l
  clone_windows-eq =
      clone_with-id (clone_each clone_window) (clone_each-id clone_window clone_window-eq)

  clone_usage-eq : (u : UsageSummary F) → clone_usage u ≡ u
  unfolding clone_usage
  clone_usage-eq u = simp (copy-eq, clone_with-id clone_credit clone_credit-eq, clone_windows-eq)

  -- A clone holds every value of its source.
  pub clone-eq : (s : HudState F) → clone s ≡ s
  unfolding clone
  clone-eq s = simp (copy-eq, clone_tasks-eq, clone_with-id clone_usage clone_usage-eq)
