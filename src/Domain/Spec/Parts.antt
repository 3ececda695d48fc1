-- ===== src/Domain/Spec/Parts.antt =====
-- Each helper of `Validate` accepts exactly the parts that `IsValid` asks for.
use ai_control_hud.Prelude.{
  ℕ, ◌+◌, ◌≡◌, ◌≢◌, ◌↔◌, false, Option, none, some, List, [], ◌∷◌, String, All, any, str_eq, eq_iff,
  arith, ok,
}
use ai_control_hud.Domain.{
  SourceHealth, TaskSummary, ZCodeState, CommandCodeState, UsageWindow, UsageSummary, CreditBalance,
  Floating,
}
use ai_control_hud.Domain.Validate.{
  validate_health, validate_task, validate_tasks, validate_zcode, validate_credit, validate_windows,
  validate_command_code, validate_usage, items,
}
use ai_control_hud.Domain.Spec.{
  IsHealth, IsTask, IsZCode, IsCredit, IsWindow, IsCommandCode, window_names, Distinct, WhenPresent,
  Present, IsUsage,
}

pub validate_health_iff :
    (n : String) (h : SourceHealth) → (validate_health n h ≡ ok tt) ↔ IsHealth h
unfolding validate_health
validate_health_iff n h = ground arith

validate_task_iff : (i : ℕ) (t : TaskSummary) → (validate_task i t ≡ ok tt) ↔ IsTask t
unfolding validate_task
validate_task_iff i t = ground (arith, eq_iff t.id "", eq_iff t.title "")

pub validate_tasks_iff :
    (i : ℕ) (ts : List TaskSummary) → (validate_tasks i ts ≡ ok tt) ↔ All IsTask ts
unfolding validate_tasks
validate_tasks_iff i [] = ground arith
validate_tasks_iff i (t ∷ ts) = ground (arith, validate_task_iff i t, validate_tasks_iff (i + 1) ts)

-- For an unknown status the code asks for no data; such a status fails at `validate_health`.
pub validate_zcode_iff :
    (z : ZCodeState) → IsHealth z.health → (validate_zcode z ≡ ok tt) ↔ IsZCode z
unfolding validate_zcode validate_tasks
validate_zcode_iff z h = ground (arith, validate_tasks_iff 0 (items z.tasks))

module _ {F : Type 0} (fl : Floating F) where
  validate_credit_iff :
      (c : Option (CreditBalance F)) → (validate_credit fl c ≡ ok tt) ↔ WhenPresent (IsCredit fl) c
  unfolding validate_credit
  validate_credit_iff c = ground arith

  -- None of the names seen so far is the name of a window in the list.
  abbrev Unseen : List String → List (UsageWindow F) → Type 0
  Unseen seen [] = Unit {0}
  Unseen seen (w ∷ ws) = All (λ n. n ≢ w.name) seen × Unseen seen ws

  any_iff :
      (w : String) (seen : List String)
      → (any (λ n. str_eq n w) seen ≡ false) ↔ All (λ n. n ≢ w) seen
  any_iff w [] = ground arith
  any_iff w (n ∷ seen) = ground (arith, eq_iff n w, any_iff w seen)

  Unseen-cons :
      (n : String) (seen : List String) (ws : List (UsageWindow F))
      → Unseen (n ∷ seen) ws ↔ (All (λ y. n ≢ y) (window_names fl ws) × Unseen seen ws)
  Unseen-cons n seen [] = ground arith
  Unseen-cons n seen (w ∷ ws) = ground (arith, Unseen-cons n seen ws)

  validate_windows_iff :
      (i : ℕ) (seen : List String) (ws : List (UsageWindow F))
      → (validate_windows fl i seen ws ≡ ok tt)
        ↔ (All (IsWindow fl) ws × Distinct (window_names fl ws) × Unseen seen ws)
  unfolding validate_windows
  validate_windows_iff i seen [] = ground arith
  validate_windows_iff i seen (w ∷ ws) = ground (
    arith,
    eq_iff w.name "",
    any_iff w.name seen,
    Unseen-cons w.name seen ws,
    validate_windows_iff (i + 1) (w.name ∷ seen) ws,
  )

  Unseen-nil : (ws : List (UsageWindow F)) → Unseen [] ws
  Unseen-nil [] = tt
  Unseen-nil (w ∷ ws) = (tt, Unseen-nil ws)

  validate_usage_iff :
      (u : Option (UsageSummary F)) → (validate_usage fl u ≡ ok tt) ↔ Present (IsUsage fl) u
  unfolding validate_usage
  validate_usage_iff none = ground arith
  validate_usage_iff (some u) = ground (
    arith,
    validate_credit_iff u.credit,
    validate_windows_iff 0 [] (items u.windows),
    Unseen-nil (items u.windows),
  )

  pub validate_command_code_iff :
      (c : CommandCodeState F)
      → IsHealth c.health
      → (validate_command_code fl c ≡ ok tt) ↔ IsCommandCode fl c
  unfolding validate_command_code
  validate_command_code_iff c h = ground (arith, validate_usage_iff c.usage)
