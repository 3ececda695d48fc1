-- ===== src/Examples/OfCollect.antt =====
-- The theorems on the collection loops, at a collection that succeeds and two that fail.
use ai_control_hud.Prelude.{
  ◌≡◌, ◌≢◌, refl, ℕ, ok, true, false, String, none, some, List, [], ◌∷◌, pos, arith, eq_iff, str_eq,
}
use ai_control_hud.Domain.{HudState, SourceStatus, ZCodeSummary}
use ai_control_hud.Domain.Validate.{
  validate, validate_health, validate_zcode, validate_command_code, expected_overall, validate_task,
  validate_tasks,
}
use ai_control_hud.Domain.Spec.Decides.{validate_iff}
use ai_control_hud.Snapshot.{SnapshotStore, get}
use ai_control_hud.Collect.{failed, nothing, collected, Gathered, initial_state, collect_zcode_once}
use ai_control_hud.Collect.Shown.{shown}
use ai_control_hud.Collect.History.{
  Collection, of_zcode, of_usage, collect_all, remember_all, initial_accepted, collections_shown,
}
use ai_control_hud.Collect.Late.{late_failure_unseen}
use ai_control_hud.Examples.Samples.{whole, sample_state, done_task}

abbrev text : String
text = "dev"

abbrev nothing_at_all : String
nothing_at_all = ""

named : text ≢ nothing_at_all
named e = let same : str_eq text nothing_at_all ≡ true = (eq_iff text nothing_at_all).1 e in cc

abbrev initial : SnapshotStore ℕ
initial = record { state = initial_state 5 "dev" true false }

abbrev counts : ZCodeSummary
counts = record { running = pos 0; waiting = pos 0; failed = pos 0; completed = pos 1 }

abbrev gathered : Gathered
gathered = record { summary = counts; tasks = some (done_task ∷ []) }

abbrev course : List (Collection ℕ)
course = of_zcode 6 (failed "locked") ∷ of_zcode 7 (collected gathered) ∷ of_usage 3 nothing ∷ []

abbrev task_id : String
task_id = "t1"

abbrev task_title : String
task_title = "Build"

has_id : task_id ≢ nothing_at_all
has_id e =
    let same : str_eq task_id nothing_at_all ≡ true = (eq_iff task_id nothing_at_all).1 e in cc

has_title : task_title ≢ nothing_at_all
has_title e =
    let same : str_eq task_title nothing_at_all ≡ true = (eq_iff task_title nothing_at_all).1 e in
    cc

collections_shown_example :
    (get whole (collect_zcode_once whole 9 nothing (collect_all whole course initial))).zcode
    ≡ shown (remember_all none course) 9 nothing
collections_shown_example =
    collections_shown whole 5 9 "dev" true false initial course nothing (omega arith) named
      (initial_accepted whole 5 "dev" true false (omega arith) named)
      (
        omega arith,
        tt,
        (
          omega arith,
          ((omega arith, omega arith, omega arith, omega arith), ((has_id, has_title, tt, tt), tt)),
          omega arith,
        ),
      )
      tt

abbrev showing : HudState ℕ
showing = record sample_state {
  zcode = record {
    health = record {
      status = SourceStatus.ok;
      observed_at = 9;
      last_success_at = some 9;
      message = none;
    };
    summary = some counts;
    tasks = some (done_task ∷ []);
  };
}

showing_accepted : validate whole showing ≡ ok tt
unfolding validate validate_health validate_zcode validate_command_code expected_overall
    validate_task validate_tasks
showing_accepted = refl

late_failure_unseen_example :
    collect_zcode_once whole 6 (failed "locked") (record { state = showing })
    ≡ record { state = showing }
late_failure_unseen_example =
    late_failure_unseen whole 6 9 "locked" (record { state = showing }) counts (done_task ∷ [])
      ((validate_iff whole showing).0 showing_accepted) refl refl refl (omega arith)
