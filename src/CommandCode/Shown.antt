-- ===== src/CommandCode/Shown.antt =====
-- How what agent/internal/collector/commandcode returns comes into the snapshot of
-- agent/internal/runtime/runtime.go.
use ai_control_hud.Prelude.{
  ◌<◌, ◌≡◌, ap, subst, String, some, arith, Option-cases, Bool-cases, Result-cases, inl, inr, ok,
}
use ai_control_hud.Domain.{Time, HudState, CommandCodeState, UsageSummary}
use ai_control_hud.Domain.Spec.{IsValid, IsUsage}
use ai_control_hud.Snapshot.{SnapshotStore, derive_overall}
use ai_control_hud.Snapshot.Laws.{update_command_code_lem}
use ai_control_hud.Collect.{collected, collect_command_code_once, healthy}
use ai_control_hud.Zcode.Apart.{Returns}
use ai_control_hud.CommandCode.Billing.{
  Answer, unreachable, oversized, answered, get, raise_for_status, decode_object, parse_credits,
  plan_of, collect_usage,
}
use ai_control_hud.CommandCode.Values.{Outside, Members, number, field, as_object}
use ai_control_hud.CommandCode.Usage.{
  FloatLaws, credits_of-IsUsage, with_plan-IsUsage, plan_of-IsLimit,
}

module _ {F : Type 0} (out : Outside F) (laws : FloatLaws out) where
  open out use {floating}

  parse_credits-IsUsage : (root : Members) → Returns (IsUsage floating) (parse_credits out root)
  unfolding parse_credits
  parse_credits-IsUsage root = elim (Option-cases (as_object (field "credits" root))) [
    | inl absent ↦ rw (parse_credits, absent) tt
    | inr (credits, there) ↦ elim (Option-cases (number out (field "monthlyCredits" credits))) [
      | inl no_number ↦ rw (parse_credits, there, no_number) tt
      | inr (monthly, given) ↦ elim (Bool-cases (floating.less monthly floating.zero)) [
        | inl negative ↦ rw (parse_credits, there, given, negative) tt
        | inr enough ↦
            rw (parse_credits, there, given, enough)
              (credits_of-IsUsage out laws root credits monthly enough)
      ]
    ]
  ]

  collect_usage-IsUsage :
      (credits subscription : Answer)
      → Returns (IsUsage floating) (collect_usage out credits subscription)
  unfolding collect_usage get
  collect_usage-IsUsage unreachable subscription = tt
  collect_usage-IsUsage oversized subscription = tt
  collect_usage-IsUsage (answered status body) subscription =
      let refusal : String = "Unsupported CommandCode credits response" in
      elim (Result-cases (raise_for_status status)) [
        | inr (e, raised) ↦ rw (collect_usage, raised) tt
        | inl (_, fine) ↦ elim (Result-cases (decode_object out body refusal)) [
          | inr (e, garbled) ↦ rw (collect_usage, fine, garbled) tt
          | inl (root, decoded) ↦ elim (Result-cases (parse_credits out root)) [
            | inr (e, refused) ↦ rw (collect_usage, fine, decoded, refused) tt
            | inl (usage, parsed) ↦
                let h = subst (Returns (IsUsage floating)) parsed (parse_credits-IsUsage root) in
                rw (collect_usage, fine, decoded, parsed)
                  (with_plan-IsUsage out laws (plan_of out subscription) usage
                    (plan_of-IsLimit out laws subscription) h)
          ]
        ]
      ]

  -- Whatever the billing service answers: a usage that the collector returns is accepted by the
  -- store, and the snapshot then shows it as of now. The snapshot was valid, the clock is set, and
  -- float64 keeps the order that the code relies on.
  pub collect_usage_lem :
      (now : Time) (credits subscription : Answer) (usage : UsageSummary F) (s : SnapshotStore F)
      → IsValid floating s.state
      → 0 < now
      → collect_usage out credits subscription ≡ ok usage
      → IsUsage floating usage
        × ((collect_command_code_once floating now (collected usage) s).state.command_code
            ≡ record { health = healthy now; usage = some usage })
  unfolding collect_command_code_once derive_overall
  collect_usage_lem now credits subscription usage s v p returned =
      let h =
        subst (Returns (IsUsage floating)) returned (collect_usage-IsUsage credits subscription) in
      let c : CommandCodeState F = record { health = healthy now; usage = some usage } in
      let (q, r, _) = update_command_code_lem floating s c v in
      (h, ap (λ (t : HudState F). t.command_code) (r (q.1 ((p, (p, omega arith)), h))))
