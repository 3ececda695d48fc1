-- ===== src/Domain.antt =====
-- agent/internal/domain/state.go: the snapshot that the agent publishes and the hub stores.
-- A Go `time.Time` is a number of nanoseconds since the zero time (January 1 of year 1), which no
-- clock of the program precedes. A `string` type with constants is a data type with a constructor
-- for each constant and one for any other text. A pointer is an `Option`, and so is a slice where
-- the code tells nil from empty. `float64` is a parameter `F`.
pub mod Validate
pub mod Spec
use ai_control_hud.Prelude.{ℕ, ℤ, String, Bool, true, false, Option, List, ltb, ◌==◌, str_eq}

abbrev pub schema_version : ℕ
schema_version = 1

abbrev pub Time : Type 0
Time = ℕ

abbrev pub zero_time : Time
zero_time = 0

-- t.IsZero()
abbrev pub is_zero : Time → Bool
is_zero t = t == zero_time

-- t.After(u)
abbrev pub after : Time → Time → Bool
after t u = ltb u t

pub data SourceStatus : Type 0 where
  ok stale error disabled : SourceStatus
  other : String → SourceStatus

pub data TaskStatus : Type 0 where
  running waiting failed completed unknown : TaskStatus
  other : String → TaskStatus

pub data OverallStatusValue : Type 0 where
  live degraded : OverallStatusValue
  other : String → OverallStatusValue

-- `==` on the types above.
abbrev pub source_eq : SourceStatus → SourceStatus → Bool
source_eq SourceStatus.ok SourceStatus.ok = true
source_eq SourceStatus.stale SourceStatus.stale = true
source_eq SourceStatus.error SourceStatus.error = true
source_eq SourceStatus.disabled SourceStatus.disabled = true
source_eq (SourceStatus.other s) (SourceStatus.other t) = str_eq s t
source_eq _ _ = false

abbrev pub task_eq : TaskStatus → TaskStatus → Bool
task_eq TaskStatus.running TaskStatus.running = true
task_eq TaskStatus.waiting TaskStatus.waiting = true
task_eq TaskStatus.failed TaskStatus.failed = true
task_eq TaskStatus.completed TaskStatus.completed = true
task_eq TaskStatus.unknown TaskStatus.unknown = true
task_eq (TaskStatus.other s) (TaskStatus.other t) = str_eq s t
task_eq _ _ = false

abbrev pub overall_eq : OverallStatusValue → OverallStatusValue → Bool
overall_eq OverallStatusValue.live OverallStatusValue.live = true
overall_eq OverallStatusValue.degraded OverallStatusValue.degraded = true
overall_eq (OverallStatusValue.other s) (OverallStatusValue.other t) = str_eq s t
overall_eq _ _ = false

pub record SourceHealth : Type 0 where
  pub status : SourceStatus
  pub observed_at : Time
  pub last_success_at : Option Time
  pub message : Option String

pub record TaskChanges : Type 0 where
  pub additions : Option ℤ
  pub deletions : Option ℤ

pub record TaskSummary : Type 0 where
  pub id : String
  pub title : String
  pub workspace : Option String
  pub status : TaskStatus
  pub started_at : Option Time
  pub updated_at : Option Time
  pub duration_seconds : Option ℤ
  pub activity : Option String
  pub changes : Option TaskChanges

pub record ZCodeSummary : Type 0 where
  pub running : ℤ
  pub waiting : ℤ
  pub failed : ℤ
  pub completed : ℤ

pub record ZCodeState : Type 0 where
  pub health : SourceHealth
  pub summary : Option ZCodeSummary
  pub tasks : Option (List TaskSummary)

pub record CreditBalance (F : Type 0) : Type 0 where
  pub remaining : Option F
  pub limit : Option F
  pub unit : Option String

pub record UsageWindow (F : Type 0) : Type 0 where
  pub name : String
  pub used_percent : Option F
  pub reset_at : Option Time

pub record UsageSummary (F : Type 0) : Type 0 where
  pub plan : Option String
  pub credit : Option (CreditBalance F)
  pub windows : Option (List (UsageWindow F))

pub record CommandCodeState (F : Type 0) : Type 0 where
  pub health : SourceHealth
  pub usage : Option (UsageSummary F)

pub record ServerInfo : Type 0 where
  pub version : String
  pub time : Time
  pub uptime_seconds : ℤ

pub record OverallStatus : Type 0 where
  pub status : OverallStatusValue

pub record HudState (F : Type 0) : Type 0 where
  pub schema_version : ℤ
  pub server : ServerInfo
  pub overall : OverallStatus
  pub zcode : ZCodeState
  pub command_code : CommandCodeState F

-- What the code uses of `float64`.
pub record Floating (F : Type 0) : Type 0 where
  pub less : F → F → Bool
  pub zero : F
  pub hundred : F
