-- ===== src/CommandCode/Billing.antt =====
-- What agent/internal/collector/commandcode/collector.go and static.go make of the two answers of
-- the billing service. HTTP comes from outside.
use ai_control_hud.Prelude.{
  ℕ, String, Bool, false, not, ◌||◌, Option, none, some, List, [], ◌∷◌, ◌++◌, ltb, leb, ◌==◌,
  str_eq, codes, size, trim_text, cut, message, numbered, ok, err, ◌>>=◌, ◌>>◌, if◌then◌else◌,
}
use ai_control_hud.Prelude.Result.{Result}
use ai_control_hud.Domain.{UsageSummary, CreditBalance, UsageWindow}
use ai_control_hud.CommandCode.Values.{
  Json, Members, json_bool, json_text, json_object, field, as_object, Outside, number, or_zero,
  timestamp,
}

-- What a request gives.
pub data Answer : Type 0 where
  unreachable oversized : Answer
  answered : ℕ → String → Answer

-- The end of `get`.
unfoldable pub get : Answer → Result (ℕ × String)
get unreachable = err (message "CommandCode billing request failed")
get oversized = err (message "CommandCode billing response too large")
get (answered status body) = ok (status, body)

unfoldable pub raise_for_status : ℕ → Result (Unit {0})
raise_for_status status =
    if status == 401
    then err (message "CommandCode authentication failed")
    else if status == 403
    then err (message "CommandCode billing access denied")
    else if ltb status 200 || leb 300 status
    then err (numbered "CommandCode billing API unavailable" status)
    else ok tt

-- The label and the credits of a plan that is known.
unfoldable pub known_plan : String → Option (String × ℕ)
known_plan id =
    if str_eq id "individual-go"
    then some ("Go", 10)
    else if str_eq id "individual-goat"
    then some ("GOAT", 70)
    else if str_eq id "individual-pro"
    then some ("Pro", 30)
    else if str_eq id "individual-pro-v1"
    then some ("Pro", 80)
    else if str_eq id "individual-provider"
    then some ("Provider", 15)
    else if str_eq id "individual-max"
    then some ("Max", 150)
    else if str_eq id "individual-ultra"
    then some ("Ultra", 300)
    else if str_eq id "teams-pro"
    then some ("Teams Pro", 40)
    else none

module _ {F : Type 0} (out : Outside F) where
  open out use {floating, add, divide, times, larger, smaller, at_most, of_nat, decode}

  unfoldable pub decode_object : String → String → Result Members
  decode_object body refusal = elim (decode body) [
    | some (json_object o) ↦ ok o
    | _ ↦ err (message refusal)
  ]

  unfoldable pub window_of : String → Members → List (UsageWindow F)
  unfolding number timestamp
  window_of name o = elim (number out (field "cap" o)) [
    | none ↦ []
    | some cap ↦
        if not (floating.less floating.zero cap)
        then []
        else record {
          name = name;
          used_percent = some (
              smaller floating.hundred (
                times
                  (divide (larger floating.zero (or_zero out (number out (field "used" o)))) cap)
                  floating.hundred));
          reset_at = timestamp out (field "resetAt" o);
        }
          ∷ []
  ]

  -- No window, or one.
  unfoldable pub parse_usage_window : Option Members → String → String → List (UsageWindow F)
  unfolding window_of
  parse_usage_window none key name = []
  parse_usage_window (some limits) key name = elim (as_object (field key limits)) [
    | none ↦ []
    | some o ↦ window_of name o
  ]

  abbrev pub or_else_object : Option Members → Option Members → Option Members
  or_else_object none o = o
  or_else_object (some m) o = some m

  unfoldable pub credits_of : Members → Members → F → UsageSummary F
  unfolding number parse_usage_window
  credits_of root credits monthly =
      let limits =
        or_else_object (as_object (field "windowLimits" root))
          (as_object (field "windowLimits" credits)) in
      record {
        plan = none;
        credit = some (record {
          remaining = some (
              add
                (add monthly (
                  larger floating.zero
                    (or_zero out (number out (field "purchasedCredits" credits)))))
                (larger floating.zero (or_zero out (number out (field "freeCredits" credits)))));
          limit = none;
          unit = some "USD";
        });
        windows = some (
            parse_usage_window limits "fiveHour" "5h"
            ++ parse_usage_window limits "weekly" "weekly");
      }

  unfoldable pub parse_credits : Members → Result (UsageSummary F)
  unfolding credits_of
  parse_credits root = elim (as_object (field "credits" root)) [
    | none ↦ err (message "Unsupported CommandCode credits response")
    | some credits ↦ elim (number out (field "monthlyCredits" credits)) [
      | none ↦ err (message "Unsupported CommandCode credits response")
      | some monthly ↦
          if floating.less monthly floating.zero
          then err (message "Unsupported CommandCode credits response")
          else ok (credits_of root credits monthly)
    ]
  ]

  unfoldable pub plan_by_id : String → String × Option F
  unfolding known_plan
  plan_by_id id =
      if str_eq id ""
      then ("", none)
      else let short = if ltb 128 (size (codes id)) then cut 128 id else id in
        elim (known_plan short) [
          | none ↦ (short, none)
          | some (label, limit) ↦ (label, some (of_nat limit))
        ]

  unfoldable pub plan_in : Option Members → String × Option F
  unfolding plan_by_id
  plan_in none = ("", none)
  plan_in (some o) = elim (field "planId" o) [
    | json_text id ↦ plan_by_id (trim_text id)
    | _ ↦ ("", none)
  ]

  -- `success, exists := root["success"].(bool); exists && !success`
  abbrev pub is_refusal : Json → Bool
  is_refusal (json_bool b) = not b
  is_refusal _ = false

  -- The label and the limit; an error counts as no plan.
  unfoldable pub parse_plan : Members → String × Option F
  unfolding plan_in
  parse_plan root =
      if is_refusal (field "success" root)
      then ("", none)
      else plan_in (as_object (field "data" root))

  unfoldable pub plan_body : Option Json → String × Option F
  unfolding parse_plan
  plan_body (some (json_object o)) = parse_plan o
  plan_body _ = ("", none)

  -- The plan of the second answer, of which no error is shown.
  unfoldable pub plan_of : Answer → String × Option F
  unfolding plan_body
  plan_of (answered status body) =
      if ltb status 200 || leb 300 status then ("", none) else plan_body (decode body)
  plan_of _ = ("", none)

  -- By the limit and what remains.
  unfoldable pub limited : Option F → Option F → CreditBalance F → CreditBalance F
  limited (some limit) (some r) c = if at_most r limit then record c { limit = some limit } else c
  limited _ _ c = c

  unfoldable pub with_limit : Option F → Option (CreditBalance F) → Option (CreditBalance F)
  unfolding limited
  with_limit limit none = none
  with_limit limit (some c) = some (limited limit c.remaining c)

  unfoldable pub with_plan : String × Option F → UsageSummary F → UsageSummary F
  unfolding with_limit
  with_plan (plan, limit) usage = record {
    plan = if str_eq plan "" then usage.plan else some plan;
    credit = with_limit limit usage.credit;
    windows = usage.windows;
  }

  -- `CollectProvider` and `Collect`, from the check of the provider on: the two answers.
  unfoldable pub collect_usage : Answer → Answer → Result (UsageSummary F)
  unfolding get decode_object parse_credits plan_of with_plan
  collect_usage credits subscription = do
    (status, body) ← get credits
    raise_for_status status
    root ← decode_object body "Unsupported CommandCode credits response"
    usage ← parse_credits root
    ok (with_plan (plan_of subscription) usage)
