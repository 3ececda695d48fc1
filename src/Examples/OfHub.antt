-- ===== src/Examples/OfHub.antt =====
-- The theorems on the hub, at a server that is sent one snapshot and one event.
use ai_control_hud.Prelude.{
  ◌≡◌, ◌≢◌, refl, ℕ, pos, ◌+◌, ◌++◌, ok, message, true, false, String, none, some, List, [], ◌∷◌,
  arith, lookup, upsert, All, length, eq_iff, str_eq, size,
}
use ai_control_hud.Domain.{Time}
use ai_control_hud.Events.{validate, Event, EventType}
use ai_control_hud.Hub.Models.{validate_event, EventBatch}
use ai_control_hud.Hub.Store.{
  Db, HubRow, AgentRow, Loaded, Io, HubEvent, created, has_event, record_events, record_events_tx,
  insert_events, insert_or_ignore, insert_row, upsert_agent, merge_agent, load_state, decode_loaded,
  decode_hub_rows, decode_hub_row,
}
use ai_control_hud.Hub.Server.{
  Server, Request, refused, written, EventReceipt, accept_events, load_primary_state, seed,
  cache_load, eof, handle_agent_state, handle_agent_heartbeat, handle_agent_events,
}
use ai_control_hud.Hub.Log.Sound.{IsSound, IsSound-created, record_events-IsSound}
use ai_control_hud.Hub.Log.Redelivery.{record_events_lem, record_events_again}
use ai_control_hud.Hub.Cursor.Pages.{crawl, feed, crawl_all}
use ai_control_hud.Hub.Cached.Loads.{stored}
use ai_control_hud.Hub.Cached.Served.{
  read, serve, serve_all, served_state, events_leave_cache, post_needs_token,
}
use ai_control_hud.Examples.OfSnapshots.{accepted}
use ai_control_hud.Hub.Clone.{clone_hud_state-eq}
use ai_control_hud.Examples.Samples.{
  whole, sample_state, sample_event, hub_env, hub_laws, encodes_event,
}

abbrev works : Io
works _ = true

abbrev down : Io
down _ = false

abbrev agent_row : AgentRow
agent_row = record { agent_version = none; last_seen_at = "aaaaa"; last_sent_at = "aaaa" }

abbrev sample_row : HubRow
sample_row = record {
  seq = 1;
  event_id = "event-0001";
  agent_id = "a1";
  event_type = EventType.completed;
  occurred_at = "aaa";
  received_at = "aaaaa";
  event_json = "sample";
}

abbrev holding : Db
holding = record {
  agents = ("a1", agent_row) ∷ [];
  snapshots = [];
  events = sample_row ∷ [];
  last_seq = 1;
}

abbrev holding_later : Db
holding_later = record holding {
  agents = ("a1", record agent_row { last_seen_at = "aaaaaa" }) ∷ [];
}

recorded : record_events hub_env works "a1" 4 (sample_event ∷ []) 5 created ≡ (holding, ok (1, 0))
unfolding record_events record_events_tx insert_events insert_or_ignore insert_row upsert_agent
    merge_agent upsert
recorded = ground (arith, encodes_event)

recorded_again :
    record_events hub_env works "a1" 4 (sample_event ∷ []) 6 holding ≡ (holding_later, ok (0, 1))
unfolding record_events record_events_tx insert_events insert_or_ignore insert_row upsert_agent
    merge_agent upsert
recorded_again = ground (arith, encodes_event)

record_events-IsSound_example :
    IsSound (record_events hub_env works "a1" 4 (sample_event ∷ []) 5 created).0
record_events-IsSound_example =
    record_events-IsSound hub_env works "a1" 4 5 (sample_event ∷ []) created IsSound-created

record_events_lem_example :
    (new : List HubRow) × (holding.events ≡ created.events ++ new)
    × (length new ≡ 1)
    × (1 + 0 ≡ length (sample_event ∷ []))
    × All (λ (e : Event). has_event e.event_id holding.events ≡ true) (sample_event ∷ [])
record_events_lem_example =
    record_events_lem hub_env works "a1" 4 5 (sample_event ∷ []) created holding 1 0 recorded

record_events_again_example :
    (holding_later.events ≡ holding.events)
    × (holding_later.last_seq ≡ holding.last_seq)
    × (length {A = HubRow} [] ≡ 0)
    × (1 ≡ length (sample_event ∷ []))
record_events_again_example =
    record_events_again hub_env works works "a1" "a1" 4 4 5 6 (sample_event ∷ []) created holding
      holding_later 1 0 0 1 recorded recorded_again

abbrev served_event : HubEvent
served_event = record { seq = 1; agent_id = "a1"; received_at = 5; event = sample_event }

readable : decode_hub_rows hub_env (feed hub_env "a1" 0 holding) ≡ ok (served_event ∷ [])
unfolding decode_hub_rows decode_hub_row validate_event validate size
readable = refl

holding-IsSound : IsSound holding
holding-IsSound = record { keyed = (omega arith, omega arith); unique = (refl, tt) }

crawl_all_example : crawl hub_env 2 "a1" 100 (pos 0) holding ≡ some (ok (served_event ∷ []))
crawl_all_example =
    crawl_all hub_env 2 "a1" 100 0 holding (served_event ∷ []) holding-IsSound (omega arith)
      (omega arith) readable (omega arith)

abbrev keeping : Db
keeping = record {
  agents = ("a1", agent_row) ∷ [];
  snapshots =
      ("a1", record { received_at = "aaaaa"; sent_at = "aaaa"; state_json = "sample" }) ∷ [];
  events = [];
  last_seq = 0;
}

abbrev sample_server : Server ℕ
sample_server = record {
  config = record { agent_token = "secret"; primary_agent_id = "a1"; stale_after = 90 };
  version = "1.0";
  started_at = 1;
  db = keeping;
  cache = none;
}

abbrev sample_loaded : Loaded ℕ
sample_loaded = record { state = sample_state; last_seen = 5 }

found : stored whole hub_env "a1" keeping ≡ ok (some sample_loaded)
unfolding load_state decode_loaded lookup
found = ground (arith, accepted)

read_twice :
    (load_primary_state whole hub_env works
      (serve_all whole hub_env hub_laws sample_server (read works ∷ []))).1
    ≡ ok (some sample_loaded)
unfolding serve_all serve load_primary_state seed cache_load
read_twice = ground (arith, found, clone_hud_state-eq sample_state)

served_state_example :
    (t : Time) × (stored whole hub_env
        (serve_all whole hub_env hub_laws sample_server (read works ∷ [])).config.primary_agent_id
        (serve_all whole hub_env hub_laws sample_server (read works ∷ [])).db
      ≡ ok (some (record { state = sample_state; last_seen = t })))
served_state_example =
    served_state whole hub_env hub_laws sample_server (read works ∷ []) works sample_loaded refl
      read_twice

abbrev caching : Server ℕ
caching = record sample_server { cache = some sample_loaded }

abbrev sample_batch : EventBatch
sample_batch = record { agent_id = "a1"; sent_at = 8; events = sample_event ∷ [] }

abbrev batch_receipt : EventReceipt
batch_receipt = record { agent_id = "a1"; received_at = 9; accepted = 1; duplicates = 0 }

taken : (accept_events whole hub_env works 9 caching sample_batch).1 ≡ written batch_receipt
unfolding accept_events record_events record_events_tx insert_events insert_or_ignore insert_row
    upsert_agent merge_agent upsert
taken = ground (arith, encodes_event)

events_leave_cache_example :
    ((accept_events whole hub_env works 9 caching sample_batch).0.cache ≡ some sample_loaded)
    × (stored whole hub_env "a1" (accept_events whole hub_env works 9 caching sample_batch).0.db
        ≡ ok (some (record { state = sample_state; last_seen = 9 })))
events_leave_cache_example =
    events_leave_cache whole hub_env hub_laws works 9 caching sample_batch sample_loaded
      batch_receipt refl found refl taken

abbrev unsigned : {A : Type 0} → Request A
unsigned = record { is_post = true; authorization = ""; body = record { first = none; rest = eof } }

abbrev nobody : String
nobody = ""

abbrev secret : String
secret = "Bearer secret"

unsigned-ne : nobody ≢ secret
unsigned-ne e = let same : str_eq nobody secret ≡ true = (eq_iff nobody secret).1 e in cc

post_needs_token_example :
    (handle_agent_state whole hub_env works 9 sample_server unsigned
      ≡ (sample_server, refused 401 (message "invalid agent token")))
    × (handle_agent_heartbeat whole hub_env works 9 sample_server unsigned
        ≡ (sample_server, refused 401 (message "invalid agent token")))
    × (handle_agent_events whole hub_env works 9 sample_server unsigned
        ≡ (sample_server, refused 401 (message "invalid agent token")))
post_needs_token_example =
    post_needs_token whole hub_env hub_laws works 9 sample_server unsigned unsigned unsigned
      unsigned-ne unsigned-ne unsigned-ne
