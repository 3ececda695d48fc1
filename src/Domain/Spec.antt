-- ===== src/Domain/Spec.antt =====
-- What a valid snapshot is, stated without the order of the code's checks; that `validate` of
-- agent/internal/domain/state.go decides it is proved in the children.
pub mod Parts
pub mod Decides
use ai_control_hud.Prelude.{
  ℤ, pos, ◌<◌, ◌≤◌, ◌≤ℤ◌, String, ◌≡◌, ◌≢◌, Bool, true, false, Option, none, some, List, [], ◌∷◌,
  map, All,
}
use ai_control_hud.Domain.{
  Time, HudState, SourceHealth, SourceStatus, TaskStatus, TaskSummary, ZCodeState, ZCodeSummary,
  CommandCodeState, CreditBalance, UsageWindow, UsageSummary, Floating, OverallStatusValue,
}
use ai_control_hud.Domain.Validate.{items, expected_overall}

-- One condition for the trusted statuses, one for the others; an unknown status has none.
abbrev pub ByStatus : SourceStatus → Type 0 → Type 0 → Type 0
ByStatus SourceStatus.ok A B = A
ByStatus SourceStatus.stale A B = A
ByStatus SourceStatus.error A B = B
ByStatus SourceStatus.disabled A B = B
ByStatus (SourceStatus.other s) A B = ⊥

abbrev pub SucceededBy : Option Time → Time → Type 0
SucceededBy none u = ⊥
SucceededBy (some t) u = (0 < t) × (t ≤ u)

abbrev pub IsHealth : SourceHealth → Type 0
IsHealth h =
    (0 < h.observed_at) × ByStatus h.status (SucceededBy h.last_success_at h.observed_at) (Unit {0})

abbrev pub Nonnegative : Option ℤ → Type 0
Nonnegative none = Unit {0}
Nonnegative (some n) = pos 0 ≤ℤ n

abbrev pub IsKnownTask : TaskStatus → Type 0
IsKnownTask (TaskStatus.other s) = ⊥
IsKnownTask _ = Unit {0}

abbrev pub IsTask : TaskSummary → Type 0
IsTask t = (t.id ≢ "") × (t.title ≢ "") × IsKnownTask t.status × Nonnegative t.duration_seconds

abbrev pub IsSummary : ZCodeSummary → Type 0
IsSummary s =
    (pos 0 ≤ℤ s.running) × (pos 0 ≤ℤ s.waiting) × (pos 0 ≤ℤ s.failed) × (pos 0 ≤ℤ s.completed)

-- A value that is there and satisfies `P`.
abbrev pub Present : {A : Type 0} → (A → Type 0) → Option A → Type 0
Present P none = ⊥
Present P (some a) = P a

abbrev pub IsAbsent : {A : Type 0} → Option A → Type 0
IsAbsent none = Unit {0}
IsAbsent (some a) = ⊥

abbrev pub IsZCode : ZCodeState → Type 0
IsZCode z =
    ByStatus z.health.status (Present IsSummary z.summary × Present (All IsTask) z.tasks)
      (IsAbsent z.summary × IsAbsent z.tasks)

-- No two items of a list are equal.
abbrev pub Distinct : List String → Type 0
Distinct [] = Unit {0}
Distinct (x ∷ xs) = All (λ y. x ≢ y) xs × Distinct xs

abbrev pub WhenPresent : {A : Type 0} → (A → Type 0) → Option A → Type 0
WhenPresent P none = Unit {0}
WhenPresent P (some a) = P a

module _ {F : Type 0} (fl : Floating F) where
  open fl use {less, zero as f_zero, hundred}

  abbrev pub AtMost : Option F → Option F → Type 0
  AtMost (some r) (some l) = less l r ≡ false
  AtMost _ _ = Unit {0}

  abbrev pub IsCredit : CreditBalance F → Type 0
  IsCredit c =
      WhenPresent (λ r. less r f_zero ≡ false) c.remaining
      × WhenPresent (λ l. less f_zero l ≡ true) c.limit
      × AtMost c.remaining c.limit

  abbrev pub IsWindow : UsageWindow F → Type 0
  IsWindow w =
      (w.name ≢ "")
      × WhenPresent (λ p. (less p f_zero ≡ false) × (less hundred p ≡ false)) w.used_percent

  abbrev pub window_names : List (UsageWindow F) → List String
  window_names [] = []
  window_names (w ∷ ws) = w.name ∷ window_names ws

  abbrev pub AreWindows : List (UsageWindow F) → Type 0
  AreWindows ws = All IsWindow ws × Distinct (window_names ws)

  abbrev pub IsUsage : UsageSummary F → Type 0
  IsUsage u = WhenPresent IsCredit u.credit × AreWindows (items u.windows)

  abbrev pub IsCommandCode : CommandCodeState F → Type 0
  IsCommandCode c = ByStatus c.health.status (Present IsUsage c.usage) (IsAbsent c.usage)

  pub record IsValid (s : HudState F) : Type 0 where
    pub schema : s.schema_version ≡ pos 1
    pub version : s.server.version ≢ ""
    pub time : 0 < s.server.time
    pub uptime : pos 0 ≤ℤ s.server.uptime_seconds
    pub zcode_health : IsHealth s.zcode.health
    pub command_code_health : IsHealth s.command_code.health
    pub zcode : IsZCode s.zcode
    pub command_code : IsCommandCode s.command_code
    pub overall : s.overall.status ≡ expected_overall fl s
