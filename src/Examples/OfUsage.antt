-- ===== src/Examples/OfUsage.antt =====
-- The theorem on the Command Code collector, at two answers of the billing service.
use ai_control_hud.Prelude.{
  ℕ, ◌+◌, ◌*◌, ◌/◌, ◌≡◌, refl, pos, false, none, some, [], ◌∷◌, arith, ok, max, min, leb, str_eq,
  if◌then◌else◌, size, trim_text, is_space,
}
use ai_control_hud.Domain.{UsageSummary}
use ai_control_hud.Domain.Spec.{IsUsage}
use ai_control_hud.Collect.{collected, collect_command_code_once, healthy}
use ai_control_hud.CommandCode.Billing.{answered, collect_usage, raise_for_status, known_plan}
use ai_control_hud.CommandCode.Values.{
  Outside, Json, json_number, json_text, json_object, member, no_members, timestamp, field, number,
}
use ai_control_hud.CommandCode.Shown.{collect_usage_lem}
use ai_control_hud.CommandCode.Usage.{FloatLaws}
use ai_control_hud.Examples.OfSnapshots.{sample_store, sample-IsValid}
use ai_control_hud.Examples.Samples.{whole}

abbrev credits_answer : Json
credits_answer = json_object (
    member "credits" (json_object (member "monthlyCredits" (json_number "12") no_members)) (
      member "windowLimits"
        (json_object (
          member "weekly"
            (json_object
              (member "cap" (json_number "40") (member "used" (json_text " 12 ") no_members)))
            no_members))
        no_members))

abbrev plan_answer : Json
plan_answer = json_object (
    member "data" (json_object (member "planId" (json_text "individual-pro") no_members))
      no_members)

abbrev whole_numbers : Outside ℕ
whole_numbers = record {
  floating = whole;
  add = λ x y. x + y;
  divide = λ x y. x / y;
  times = λ x y. x * y;
  larger = max;
  smaller = min;
  at_most = leb;
  of_nat = λ n. n;
  number_of = λ t. if str_eq t "12" then some 12 else if str_eq t "40" then some 40 else none;
  int_of = λ t. if str_eq t "9000000000000000" then some (pos 9000000000000000) else none;
  has_fraction = λ t. false;
  float_time = λ x. none;
  text_time = λ t. none;
  decode = λ t. if str_eq t "credits" then some credits_answer else some plan_answer;
}

whole_laws : FloatLaws whole_numbers
whole_laws = record {
  sum = λ x y h k. ground arith;
  larger_zero = λ x. ground arith;
  share = λ x cap h k. ground arith;
  smaller_hundred = λ x. ground arith;
  positive = λ n h. ground arith;
  not_less = λ x y h. ground arith;
}

abbrev summary : UsageSummary ℕ
summary = record {
  plan = some "Pro";
  credit = some (record { remaining = some 12; limit = some 30; unit = some "USD" });
  windows = some (record { name = "weekly"; used_percent = some 0; reset_at = none } ∷ []);
}

answers : collect_usage whole_numbers (answered 200 "credits") (answered 200 "plan") ≡ ok summary
unfolding collect_usage field number timestamp known_plan trim_text size is_space raise_for_status
answers = refl

-- Milliseconds are not bounded as seconds are: this time lies behind the year 9999.
far_away :
    timestamp whole_numbers (json_number "9000000000000000")
    ≡ some (62135596800000000000 + 9000000000000000000000)
unfolding timestamp trim_text is_space
far_away = refl

collect_usage_lem_example :
    IsUsage whole summary
    × ((collect_command_code_once whole 9 (collected summary) sample_store).state.command_code
        ≡ record { health = healthy 9; usage = some summary })
collect_usage_lem_example =
    collect_usage_lem whole_numbers whole_laws 9 (answered 200 "credits") (answered 200 "plan")
      summary sample_store sample-IsValid (omega arith) answers
