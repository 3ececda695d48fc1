-- ===== src/Collect.antt =====
-- agent/internal/runtime/runtime.go: the two collection loops, which put what the collectors give
-- into the snapshot store. What a collector gives is an argument, and so is the time at which it
-- gives it. Tickers, timeouts and cancellation are not modelled.
pub mod Messages
pub mod Shown
pub mod History
pub mod Late
use ai_control_hud.Prelude.{
  ℕ, pos, String, Option, none, some, List, [], if◌then◌else◌, Bool, Error,
}
use ai_control_hud.Domain.{
  Time, HudState, ServerInfo, SourceHealth, SourceStatus, OverallStatusValue, TaskSummary,
  ZCodeState, ZCodeSummary, CommandCodeState, UsageSummary, Floating, schema_version,
}
use ai_control_hud.Snapshot.{SnapshotStore, get, update_zcode, update_command_code}
use ai_control_hud.Collect.Messages.{zcode_message, command_code_message}

-- What a collector gives: an error with its text, nil, or a value.
pub data Outcome (A : Type 0) : Type 0 where
  failed : String → Outcome A
  nothing : Outcome A
  collected : A → Outcome A

-- zcode.Snapshot
pub record Gathered : Type 0 where
  pub summary : ZCodeSummary
  pub tasks : Option (List TaskSummary)

-- A loop is there if its collector is: this is `zcodeCollect != nil`.
unfoldable pub initial_health : Time → Bool → String → SourceHealth
initial_health now enabled disabled_message =
    if enabled
    then record {
      status = SourceStatus.error;
      observed_at = now;
      last_success_at = none;
      message = some "collector is waiting for the first snapshot";
    }
    else record {
      status = SourceStatus.disabled;
      observed_at = now;
      last_success_at = none;
      message = some disabled_message;
    }

unfoldable pub initial_state : {F : Type 0} → Time → String → Bool → Bool → HudState F
unfolding initial_health
initial_state now version zcode_enabled command_code_enabled = record {
  schema_version = pos schema_version;
  server = record { version = version; time = now; uptime_seconds = pos 0 };
  overall = record { status = OverallStatusValue.degraded };
  zcode = record {
    health = initial_health now zcode_enabled "ZCode collector is not configured";
    summary = none;
    tasks = none;
  };
  command_code = record {
    health = initial_health now command_code_enabled "CommandCode collector is not configured";
    usage = none;
  };
}

abbrev pub healthy : Time → SourceHealth
healthy now = record {
  status = SourceStatus.ok;
  observed_at = now;
  last_success_at = some now;
  message = none;
}

abbrev pub erring : Time → String → SourceHealth
erring now text = record {
  status = SourceStatus.error;
  observed_at = now;
  last_success_at = none;
  message = some text;
}

abbrev pub aged : Time → Time → String → SourceHealth
aged now last text = record {
  status = SourceStatus.stale;
  observed_at = now;
  last_success_at = some last;
  message = some text;
}

-- `if tasks == nil { tasks = []domain.TaskSummary{} }`
abbrev pub or_empty : Option (List TaskSummary) → List TaskSummary
or_empty none = []
or_empty (some ts) = ts

-- What a collection that failed makes of the data and the last success that are there.
abbrev pub without_zcode :
    Time → String → Option ZCodeSummary → Option (List TaskSummary) → Option Time → ZCodeState
without_zcode now text (some summary) (some tasks) (some last) = record {
  health = aged now last text;
  summary = some summary;
  tasks = some tasks;
}
without_zcode now text _ _ _ = record { health = erring now text; summary = none; tasks = none }

abbrev pub without_usage :
    {F : Type 0} → Time → String → Option (UsageSummary F) → Option Time → CommandCodeState F
without_usage now text (some usage) (some last) = record {
  health = aged now last text;
  usage = some usage;
}
without_usage now text _ _ = record { health = erring now text; usage = none }

module _ {F : Type 0} (fl : Floating F) where
  -- The code drops the error of an update, here and below.
  unfoldable pub record_zcode_failure : Time → String → SnapshotStore F → SnapshotStore F
  record_zcode_failure now text s =
      let previous = (get fl s).zcode in
      (update_zcode fl s (
        without_zcode now (zcode_message text) previous.summary previous.tasks
          previous.health.last_success_at)).0

  unfoldable pub record_command_code_failure : Time → String → SnapshotStore F → SnapshotStore F
  record_command_code_failure now text s =
      let previous = (get fl s).command_code in
      (update_command_code fl s (
        without_usage now (command_code_message text) previous.usage
          previous.health.last_success_at)).0

  unfoldable pub collect_zcode_once : Time → Outcome Gathered → SnapshotStore F → SnapshotStore F
  collect_zcode_once now (failed text) s = record_zcode_failure now text s
  collect_zcode_once now nothing s =
      record_zcode_failure now "ZCode collection returned no snapshot" s
  collect_zcode_once now (collected g) s =
      (update_zcode fl s (record {
        health = healthy now;
        summary = some g.summary;
        tasks = some (or_empty g.tasks);
      })).0

  unfoldable pub collect_command_code_once :
      Time → Outcome (UsageSummary F) → SnapshotStore F → SnapshotStore F
  collect_command_code_once now (failed text) s = record_command_code_failure now text s
  collect_command_code_once now nothing s =
      record_command_code_failure now "CommandCode collection returned no usage" s
  collect_command_code_once now (collected usage) s =
      (update_command_code fl s (record { health = healthy now; usage = some usage })).0
