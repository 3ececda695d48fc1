-- ===== src/Examples/OfSnapshots.antt =====
-- The theorems on snapshots, at one snapshot.
use ai_control_hud.Prelude.{◌≡◌, ◌↔◌, refl, ℕ, ok, none, some, [], ◌∷◌, pos, arith}
use ai_control_hud.Domain.{ZCodeState, CommandCodeState, SourceStatus}
use ai_control_hud.Domain.Validate.{
  validate, validate_health, validate_zcode, validate_command_code, expected_overall,
}
use ai_control_hud.Domain.Spec.{IsValid}
use ai_control_hud.Domain.Spec.Decides.{validate_iff}
use ai_control_hud.Snapshot.{SnapshotStore, new, get, clone-eq}
use ai_control_hud.Snapshot.Laws.{run, put_zcode, put_command_code, run-IsValid}
use ai_control_hud.Examples.Samples.{whole, sample_state, source_down, done_task}

pub accepted : validate whole sample_state ≡ ok tt
unfolding validate validate_health validate_zcode validate_command_code expected_overall
accepted = refl

abbrev pub sample_store : SnapshotStore ℕ
sample_store = record { state = sample_state }

made : new whole sample_state ≡ ok sample_store
unfolding new
made = ground (arith, accepted, clone-eq sample_state)

abbrev working : ZCodeState
working = record {
  health = record {
    status = SourceStatus.ok;
    observed_at = 9;
    last_success_at = some 9;
    message = none;
  };
  summary = some (record { running = pos 0; waiting = pos 0; failed = pos 0; completed = pos 1 });
  tasks = some (done_task ∷ []);
}

abbrev command_down : CommandCodeState ℕ
command_down = record { health = source_down; usage = none }

validate_iff_example : (validate whole sample_state ≡ ok tt) ↔ IsValid whole sample_state
validate_iff_example = validate_iff whole sample_state

run-IsValid_example :
    IsValid whole
      (get whole (run whole sample_store (put_zcode working ∷ put_command_code command_down ∷ [])))
run-IsValid_example =
    run-IsValid whole sample_state sample_store
      (put_zcode working ∷ put_command_code command_down ∷ []) made

pub sample-IsValid : IsValid whole sample_state
sample-IsValid = (validate_iff whole sample_state).0 accepted
