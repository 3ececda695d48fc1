-- ===== src/Examples/OfOutbox.antt =====
-- The theorems on the outbox, at a first observation of nothing and two of one finished task.
use ai_control_hud.Prelude.{
  ◌≡◌, ◌⊎◌, ◌*◌, Error, refl, ℕ, ok, true, false, String, Option, none, some, [], ◌∷◌, lookup,
  upsert, size,
}
use ai_control_hud.Domain.{TaskStatus}
use ai_control_hud.Events.{validate, EventType}
use ai_control_hud.Events.Outbox.{
  Outbox, Io, created, maintain, ack, hour, baseline_initialized, observe_tx, observe_tasks,
  observe_task, emit_if, emit, save, row_of, event_for_task, append_event, is_transition, terminal,
}
use ai_control_hud.Events.Emission.Spec.{announced}
use ai_control_hud.Events.Emission.Rounds.{Appends}
use ai_control_hud.Events.Emission.Exact.{observe_tx-Appends, observe_again}
use ai_control_hud.Events.Hygiene.{maintain_unseen, unacknowledged, ack_cases}
use ai_control_hud.Examples.Samples.{outbox_env, done_task}

abbrev works : Io
works _ = true

abbrev ids : ℕ → Option String
ids _ = some "event-0001"

abbrev first : Outbox
first = record { meta = some "1"; task_state = []; event_outbox = []; last_seq = 0 }

observed_first : observe_tx outbox_env works ids 4 [] created ≡ ok first
unfolding observe_tx observe_tasks baseline_initialized
observed_first = refl

abbrev second : Outbox
second = record {
  meta = some "1";
  task_state =
      (
        "t1",
        record {
          status = TaskStatus.completed;
          title = "Build";
          workspace = none;
          updated_at = some "aaa";
          last_seen_at = "aaaaa";
        },
      )
      ∷ [];
  event_outbox =
      record {
        local_seq = 1;
        event_id = "event-0001";
        event_type = EventType.completed;
        occurred_at = "aaa";
        event_json = "event-0001";
        created_at = "aaaaa";
      }
      ∷ [];
  last_seq = 1;
}

observed_second : observe_tx outbox_env works ids 5 (done_task ∷ []) first ≡ ok second
unfolding observe_tx observe_tasks observe_task baseline_initialized emit_if emit save row_of
    event_for_task append_event is_transition terminal lookup upsert validate size
observed_second = refl

abbrev third : Outbox
third = record second {
  task_state =
      (
        "t1",
        record {
          status = TaskStatus.completed;
          title = "Build";
          workspace = none;
          updated_at = some "aaa";
          last_seen_at = "aaaaaa";
        },
      )
      ∷ [];
}

observed_third : observe_tx outbox_env works ids 6 (done_task ∷ []) second ≡ ok third
unfolding observe_tx observe_tasks observe_task baseline_initialized emit_if emit save row_of
    event_for_task append_event is_transition terminal lookup upsert validate size
observed_third = refl

is_set : baseline_initialized first ≡ true
unfolding baseline_initialized
is_set = refl

is_unset : baseline_initialized created ≡ false
unfolding baseline_initialized
is_unset = refl

observe_tx-Appends_example :
    Appends
      (announced outbox_env ids 5 first.task_state 0 first.last_seq (done_task ∷ []))
      first
      second
observe_tx-Appends_example =
    observe_tx-Appends outbox_env works ids 5 (done_task ∷ []) first second observed_second is_set

observe_again_example : third.event_outbox ≡ second.event_outbox
observe_again_example =
    observe_again outbox_env works works ids ids 5 6 (done_task ∷ []) first second third (tt, tt)
      observed_second observed_third

maintain_unseen_example :
    ((maintain outbox_env works 9 (30 * hour) third).0.event_outbox ≡ third.event_outbox)
    × (announced outbox_env ids 10
          (maintain outbox_env works 9 (30 * hour) third).0.task_state
          0
          (maintain outbox_env works 9 (30 * hour) third).0.last_seq
          (done_task ∷ [])
        ≡ announced outbox_env ids 10 third.task_state 0 third.last_seq (done_task ∷ []))
    × (baseline_initialized (maintain outbox_env works 9 (30 * hour) third).0
        ≡ baseline_initialized third)
maintain_unseen_example =
    maintain_unseen outbox_env works 9 10 (30 * hour) ids (done_task ∷ []) third

ack_cases_example :
    (ack works ("event-0001" ∷ []) third ≡ (
      record third { event_outbox = unacknowledged ("event-0001" ∷ []) third.event_outbox },
      none,
    ))
    ⊎ ((e : Error) × (ack works ("event-0001" ∷ []) third ≡ (third, some e)))
ack_cases_example = ack_cases works ("event-0001" ∷ []) third
