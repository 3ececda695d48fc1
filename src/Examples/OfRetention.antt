-- ===== src/Examples/OfRetention.antt =====
-- The theorems on retention, at a log of three rows of one agent and one of another.
use ai_control_hud.Prelude.{◌≡◌, refl, ℕ, ◌+◌, String, true, none, some, [], ◌∷◌, arith}
use ai_control_hud.Events.{EventType}
use ai_control_hud.Hub.Store.{Db, HubRow, Io}
use ai_control_hud.Hub.Log.Sound.{IsSound}
use ai_control_hud.Hub.Retention.{
  Policy, Pruned, day, validate_policy, insert_id, agent_ids, force_through, min_keep, is_doomed,
  victims, delete_keys, prune_tx, prune_agent_batch, round, prune_agent, prune_agents, prune_events,
}
use ai_control_hud.Hub.Retained.Newest.{rows_of}
use ai_control_hud.Hub.Retained.Settled.{IsPruned}
use ai_control_hud.Hub.Retained.Kept.{Kept}
use ai_control_hud.Hub.Retained.Results.{
  prune_events-Kept, prune_events-IsPruned, prune_events_total,
}
use ai_control_hud.Examples.Samples.{letters}

abbrev works : Io
works _ = true

abbrev row : ℕ → String → String → String → HubRow
row n id agent received = record {
  seq = n;
  event_id = id;
  agent_id = agent;
  event_type = EventType.completed;
  occurred_at = "aaa";
  received_at = received;
  event_json = "sample";
}

abbrev full : Db
full = record {
  agents = [];
  snapshots = [];
  events =
      row 1 "event-0001" "a1" "aaa"
      ∷ row 2 "event-0002" "a2" "aaa"
      ∷ row 3 "event-0003" "a1" "aaa"
      ∷ row 4 "event-0004" "a1" "aaa"
      ∷ [];
  last_seq = 4;
}

full-IsSound : IsSound full
full-IsSound = record { keyed = omega arith; unique = (refl, (refl, (refl, (refl, tt)))) }

-- One row at least, two at most, in batches of one.
abbrev narrow : Policy
narrow = record { max_age = day; min_events = 1; max_events = 2; batch_size = 1 }

abbrev pruned : Pruned
pruned = record {
  db = record full { events = row 2 "event-0002" "a2" "aaa" ∷ row 4 "event-0004" "a1" "aaa" ∷ [] };
  deleted = 2;
  agents = 2;
  failure = none;
}

swept : prune_events letters 5 works (λ _ _. works) (day + 6) narrow full ≡ some pruned
unfolding prune_events prune_agents prune_agent round prune_agent_batch prune_tx force_through
    min_keep victims is_doomed delete_keys agent_ids insert_id validate_policy
swept = refl

prune_events-Kept_example : Kept narrow full pruned.db
prune_events-Kept_example =
    prune_events-Kept letters 5 works (λ _ _. works) (day + 6) narrow full pruned full-IsSound swept

prune_events-IsPruned_example : IsPruned narrow (letters 6) (rows_of "a1" pruned.db)
prune_events-IsPruned_example =
    prune_events-IsPruned letters 5 works (λ _ _. works) (day + 6) narrow full pruned "a1"
      full-IsSound (omega arith) swept refl

prune_events_total_example :
    (t : Pruned) × (prune_events letters 5 works (λ _ _. works) (day + 6) narrow full ≡ some t)
prune_events_total_example =
    prune_events_total letters 5 works (λ _ _. works) (day + 6) narrow full (omega arith)
