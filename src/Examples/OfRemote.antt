-- ===== src/Examples/OfRemote.antt =====
-- The theorems on the agent's connection, at an outbox with one event and a hub with none.
use ai_control_hud.Prelude.{
  trim_text, ◌≡◌, refl, sym, subst, ℕ, pos, ok, true, false, String, Option, none, some, List, [],
  ◌∷◌, arith, size, trim, suc, ap,
}
use ai_control_hud.Events.{validate, Event, EventType}
use ai_control_hud.Events.Outbox.{Env, EventRow, Io, pending, decode_rows, decode_row}
use ai_control_hud.Hub.Models.{
  EventBatch, validate_batch, validate_agent_id, validate_events, validate_event,
}
use ai_control_hud.Hub.Store.{created}
use ai_control_hud.Hub.Server.{eof, Body}
use ai_control_hud.Hub.Log.Sound.{IsSound, IsSound-created}
use ai_control_hud.Remote.Config.{
  Config, Url, new_config, is_auto_discover, normalize, normalize_url, check_url,
  validate as validate_config,
}
use ai_control_hud.Remote.Delivery.{Agent, resting, event_ids, deliver}
use ai_control_hud.Remote.Wire.{Wire, Link, answered, unanswered}
use ai_control_hud.Remote.Schedule.{World, Action, fetches, sends, acknowledges, run}
use ai_control_hud.Remote.Keeps.{known}
use ai_control_hud.Remote.Safety.{run_keeps}
use ai_control_hud.Remote.Uploads.{net, batch_of}
use ai_control_hud.Remote.Progress.{is_refused, refused_event_stays}
use ai_control_hud.Remote.Empties.{deliver_empties}
use ai_control_hud.Examples.Samples.{
  whole, hub_env, sample_event, encodes_event, outbox_env, letters,
}

-- Every text is the address of a hub.
abbrev parse_any : String → Option Url
parse_any _ = some (record { scheme = "http"; host = "h"; raw_query = ""; fragment = "" })

abbrev sample_config : Config
sample_config = record {
  base_url = "http://h";
  agent_id = "a1";
  token = "secret";
  request_timeout = pos 4000000000;
  snapshot_interval = pos 5000000000;
  heartbeat_interval = pos 10000000000;
  event_scan_interval = pos 1000000000;
  event_send_interval = pos 2000000000;
  max_backoff = pos 30000000000;
}

configured : new_config parse_any "http://h/ " "a1" "secret" ≡ ok sample_config
unfolding new_config validate_config normalize normalize_url trim_text check_url
configured = refl

-- The outbox can read its own events.
abbrev reading_env : Env
reading_env = record outbox_env { decode = λ _. some sample_event }

abbrev queued_row : EventRow
queued_row = record {
  local_seq = 1;
  event_id = "event-0001";
  event_type = EventType.completed;
  occurred_at = "aaa";
  event_json = "event-0001";
  created_at = "aaaaa";
}

abbrev sample_agent : Agent
sample_agent = record {
  outbox = record {
    meta = some "1";
    task_state = [];
    event_outbox = queued_row ∷ [];
    last_seq = 1;
  };
  client = record { config = sample_config; resolved_base_url = "http://h" };
  phase = resting;
  failures = 3;
  next_maintenance = 0;
}

abbrev plain : {A : Type 0} → A → Body A
plain a = record { first = some a; rest = eof }

abbrev sample_wire : Wire ℕ
sample_wire = record {
  encodes = λ _. true;
  makes_request = λ _. true;
  carry_state = plain;
  carry_heartbeat = plain;
  carry_events = plain;
}

abbrev works : Io
works _ = true

abbrev sample_hub : Link ℕ
sample_hub = record {
  server = record {
    config = record { agent_token = "secret"; primary_agent_id = "a1"; stale_after = 90 };
    version = "1.0";
    started_at = 1;
    db = created;
    cache = none;
  };
  fates = unanswered (λ _. true) 9 ∷ answered (λ _. true) 12 ∷ [];
  addresses = [];
}

abbrev answering_hub : Link ℕ
answering_hub = record sample_hub { fates = answered (λ _. true) 12 ∷ [] }

-- A delivery whose answer is lost, and the same once more.
abbrev twice : List (Action ℕ)
twice = fetches works ∷ sends 8 ∷ fetches works ∷ sends 11 ∷ acknowledges works ∷ []

abbrev sample_world : World ℕ
sample_world = record { agent = sample_agent; hub = sample_hub }

same_ids :
    (b b' : EventBatch) → (plain b).first ≡ some b' → event_ids b'.events ≡ event_ids b.events
same_ids b b' h = let same : b ≡ b' = cc in ap (λ (t : EventBatch). event_ids t.events) (sym same)

run_keeps_example :
    (known "event-0001"
        (run whole reading_env hub_env sample_wire twice sample_world).agent
        (run whole reading_env hub_env sample_wire twice sample_world).hub
      ≡ true)
    × IsSound (run whole reading_env hub_env sample_wire twice sample_world).hub.server.db
run_keeps_example =
    run_keeps whole hub_env sample_wire same_ids reading_env twice sample_world "event-0001" refl
      IsSound-created refl

decoded : decode_rows reading_env (queued_row ∷ []) ≡ ok (sample_event ∷ [])
unfolding decode_rows decode_row validate size
decoded = refl

accepted : validate_batch (batch_of sample_agent.client 8 (sample_event ∷ [])) ≡ ok tt
unfolding validate_batch validate_agent_id validate_events validate_event validate size trim
accepted = refl

by_address : is_auto_discover sample_config ≡ false
unfolding is_auto_discover normalize normalize_url
by_address = refl

deliver_empties_example :
    ((deliver
        (net whole hub_env sample_wire)
        reading_env
        (λ _. true)
        (λ _. true)
        8
        sample_agent
        answering_hub).0.outbox.event_outbox
      ≡ [])
    × ((deliver
          (net whole hub_env sample_wire)
          reading_env
          (λ _. true)
          (λ _. true)
          8
          sample_agent
          answering_hub).0.failures
        ≡ 0)
    × ((deliver
          (net whole hub_env sample_wire)
          reading_env
          (λ _. true)
          (λ _. true)
          8
          sample_agent
          answering_hub).0.phase
        ≡ resting)
deliver_empties_example =
    deliver_empties whole reading_env hub_env sample_wire sample_agent answering_hub sample_event []
      (batch_of sample_agent.client 8 (sample_event ∷ [])) 8 12 [] (omega arith) decoded (refl, tt)
      by_address refl refl refl refl refl accepted (("sample", encodes_event), tt)

-- An event whose title has grown on the way.
abbrev grown : Event
grown = record sample_event { task = record sample_event.task { title = letters 501 } }

abbrev growing_wire : Wire ℕ
growing_wire = record sample_wire { carry_events = λ b. plain (record b { events = grown ∷ [] }) }

too_long : is_refused (grown ∷ []) ≡ true
unfolding validate_event validate size
too_long = refl

carried_grown :
    (b : EventBatch)
    → some (record (batch_of sample_agent.client 8 (sample_event ∷ [])) { events = grown ∷ [] })
      ≡ some b
    → is_refused b.events ≡ true
carried_grown b h =
    let same : record (batch_of sample_agent.client 8 (sample_event ∷ [])) { events = grown ∷ [] }
        ≡ b =
      cc in
    subst (λ (t : EventBatch). is_refused t.events ≡ true) same too_long

given : pending reading_env works sample_agent.outbox 100 ≡ ok (sample_event ∷ [])
unfolding pending decode_rows decode_row validate size
given = refl

refused_event_stays_example :
    ((deliver
        (net whole hub_env growing_wire)
        reading_env
        works
        works
        8
        sample_agent
        answering_hub).0.outbox
      ≡ sample_agent.outbox)
    × ((deliver
          (net whole hub_env growing_wire)
          reading_env
          works
          works
          8
          sample_agent
          answering_hub).0.phase
        ≡ resting)
    × ((deliver
          (net whole hub_env growing_wire)
          reading_env
          works
          works
          8
          sample_agent
          answering_hub).0.failures
        ≡ suc 3)
refused_event_stays_example =
    refused_event_stays whole reading_env hub_env growing_wire works works 8 sample_agent
      answering_hub sample_event [] given carried_grown
