-- ===== src/Domain/Validate.antt =====
-- `Validate` and its helpers of agent/internal/domain/state.go.
use ai_control_hud.Prelude.{
  ℕ, ℤ, ◌+◌, pos, String, Bool, true, false, not, ◌&&◌, ◌||◌, Option, none, some, List, [], ◌∷◌,
  ltb_ℤ, str_eq, ◌==◌, is_none, any, message, quoted, numbered, ok, err, ◌>>◌, reject,
  if◌then◌else◌,
}
use ai_control_hud.Prelude.Result.{Result}
use ai_control_hud.Domain.{
  HudState, SourceHealth, SourceStatus, TaskStatus, TaskSummary, ZCodeState, ZCodeSummary,
  CommandCodeState, CreditBalance, UsageWindow, UsageSummary, Floating, OverallStatusValue, is_zero,
  after, source_eq, overall_eq,
}

unfoldable pub valid_source_status : SourceStatus → Bool
valid_source_status (SourceStatus.other s) = false
valid_source_status _ = true

unfoldable pub valid_task_status : TaskStatus → Bool
valid_task_status (TaskStatus.other s) = false
valid_task_status _ = true

-- `status == SourceOK || status == SourceStale`
abbrev pub is_trusted : SourceStatus → Bool
is_trusted s = source_eq s SourceStatus.ok || source_eq s SourceStatus.stale

last_success_missing : SourceHealth → Bool
last_success_missing h = elim h.last_success_at [ none ↦ true | some t ↦ is_zero t ]

last_success_late : SourceHealth → Bool
last_success_late h = elim h.last_success_at [ none ↦ false | some t ↦ after t h.observed_at ]

unfoldable pub validate_health : String → SourceHealth → Result (Unit {0})
unfolding valid_source_status last_success_missing last_success_late
validate_health name h =
    if not (valid_source_status h.status)
    then err (quoted "health.status is invalid" name)
    else if is_zero h.observed_at
    then err (quoted "health.observedAt is required" name)
    else if is_trusted h.status
    then (if last_success_missing h
        then err (quoted "health.lastSuccessAt is required" name)
        else if last_success_late h
        then err (quoted "health.lastSuccessAt cannot be after observedAt" name)
        else ok tt)
    else ok tt

abbrev pub negative : Option ℤ → Bool
negative none = false
negative (some n) = ltb_ℤ n (pos 0)

-- One round of the loop over the tasks, at index i.
unfoldable pub validate_task : ℕ → TaskSummary → Result (Unit {0})
unfolding valid_task_status
validate_task i t =
    if str_eq t.id "" || str_eq t.title ""
    then err (numbered "zcode.tasks requires id and title" i)
    else if not (valid_task_status t.status)
    then err (numbered "zcode.tasks status is invalid" i)
    else if negative t.duration_seconds
    then err (numbered "zcode.tasks durationSeconds must not be negative" i)
    else ok tt

unfoldable pub validate_tasks : ℕ → List TaskSummary → Result (Unit {0})
validate_tasks i [] = ok tt
validate_tasks i (t ∷ ts) = validate_task i t >> validate_tasks (i + 1) ts

abbrev pub negative_counts : ZCodeSummary → Bool
negative_counts s =
    ltb_ℤ s.running (pos 0)
    || ltb_ℤ s.waiting (pos 0)
    || ltb_ℤ s.failed (pos 0)
    || ltb_ℤ s.completed (pos 0)

validate_zcode_data : Option ZCodeSummary → Option (List TaskSummary) → Result (Unit {0})
validate_zcode_data (some summary) (some tasks) =
    if negative_counts summary
    then err (message "zcode summary counts must not be negative")
    else validate_tasks 0 tasks
validate_zcode_data _ _ = err (message "ok/stale zcode state requires summary and tasks")

unfoldable pub validate_zcode : ZCodeState → Result (Unit {0})
unfolding validate_zcode_data
validate_zcode z =
    if is_trusted z.health.status
    then validate_zcode_data z.summary z.tasks
    else reject (not (is_none z.summary) || not (is_none z.tasks))
        (message "error/disabled zcode state must not expose data")

-- `range` over a nil slice makes no round.
abbrev pub items {ℓ} : {A : Type ℓ} → Option (List A) → List A
items none = []
items (some l) = l

module _ {F : Type 0} (fl : Floating F) where
  open fl use {less, zero as f_zero, hundred}

  abbrev pub below : Option F → F → Bool
  below none x = false
  below (some y) x = less y x

  -- `x != nil && *x > bound`
  abbrev pub above : Option F → F → Bool
  above none x = false
  above (some y) x = less x y

  -- `<=`, for numbers that are no NaN: neither JSON nor a collector gives one.
  abbrev pub not_above : Option F → F → Bool
  not_above none x = false
  not_above (some y) x = not (less x y)

  abbrev pub exceeds : Option F → Option F → Bool
  exceeds (some r) (some l) = less l r
  exceeds _ _ = false

  unfoldable pub validate_credit : Option (CreditBalance F) → Result (Unit {0})
  validate_credit none = ok tt
  validate_credit (some c) =
      if below c.remaining f_zero
      then err (message "commandCode credit remaining must not be negative")
      else if not_above c.limit f_zero
      then err (message "commandCode credit limit must be positive")
      else if exceeds c.remaining c.limit
      then err (message "commandCode credit remaining cannot exceed limit")
      else ok tt

  -- The loop over the windows: `seen` are the names so far.
  unfoldable pub validate_windows : ℕ → List String → List (UsageWindow F) → Result (Unit {0})
  validate_windows i seen [] = ok tt
  validate_windows i seen (w ∷ ws) =
      let rest = validate_windows (i + 1) (w.name ∷ seen) ws in
      if str_eq w.name ""
      then err (numbered "commandCode.usage.windows name is required" i)
      else if any (λ n. str_eq n w.name) seen
      then err (quoted "commandCode usage window is duplicated" w.name)
      else if below w.used_percent f_zero || above w.used_percent hundred
      then err (numbered "commandCode.usage.windows usedPercent must be within 0..100" i)
      else rest

  unfoldable pub validate_usage : Option (UsageSummary F) → Result (Unit {0})
  validate_usage none = err (message "ok/stale commandCode state requires usage")
  validate_usage (some u) = validate_credit u.credit >> validate_windows 0 [] (items u.windows)

  unfoldable pub validate_command_code : CommandCodeState F → Result (Unit {0})
  validate_command_code c =
      if is_trusted c.health.status
      then validate_usage c.usage
      else reject (not (is_none c.usage))
          (message "error/disabled commandCode state must not expose usage")

  -- What `overall.status` has to be.
  unfoldable pub expected_overall : HudState F → OverallStatusValue
  expected_overall s =
      if source_eq s.zcode.health.status SourceStatus.ok
        && source_eq s.command_code.health.status SourceStatus.ok
      then OverallStatusValue.live
      else OverallStatusValue.degraded

  abbrev is_schema : ℤ → Bool
  is_schema (pos n) = n == 1
  is_schema _ = false

  unfoldable pub validate : HudState F → Result (Unit {0})
  validate s = do
    reject (not (is_schema s.schema_version)) (message "unsupported schemaVersion")
    reject (str_eq s.server.version "") (message "server.version is required")
    reject (is_zero s.server.time) (message "server.time is required")
    reject (ltb_ℤ s.server.uptime_seconds (pos 0))
        (message "server.uptimeSeconds must not be negative")
    validate_health "zcode" s.zcode.health
    validate_health "commandCode" s.command_code.health
    validate_zcode s.zcode
    validate_command_code s.command_code
    reject (not (overall_eq s.overall.status (expected_overall s)))
        (message "overall.status is not the expected one")
