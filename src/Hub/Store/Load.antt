-- ===== src/Hub/Store/Load.antt =====
-- `LoadState` and `ListEvents` of agent/internal/hub/store.go, and `EventBounds` of
-- agent/internal/hub/retention.go.
use ai_control_hud.Prelude.{
  ℕ, ℤ, pos, negsuc, min, max, String, Bool, ◌&&◌, ◌||◌, Option, none, some, List, [], ◌∷◌, select,
  take, length, lookup, ltb, str_eq, message, ok, err, ◌>>=◌, ◌>>◌, reject, within,
}
use ai_control_hud.Prelude.Result.{Result}
use ai_control_hud.Domain.{Time, HudState, Floating}
use ai_control_hud.Domain.Validate.{validate as validate_state}
use ai_control_hud.Events.{Event}
use ai_control_hud.Hub.Models.{validate_event}
use ai_control_hud.Hub.Store.Tables.{
  HubEnv, AgentRow, SnapshotRow, HubRow, Db, Io, exec, query_state, query_events, query_latest,
  query_bounds,
}
use ai_control_hud.Hub.Store.Record.{or_error}

pub record HubEvent : Type 0 where
  pub seq : ℕ
  pub agent_id : String
  pub received_at : Time
  pub event : Event

-- The rows of one agent.
abbrev pub of_agent : String → HubRow → Bool
of_agent agent_id r = str_eq r.agent_id agent_id

abbrev pub max_seq : List HubRow → ℕ
max_seq [] = 0
max_seq (r ∷ rs) = max r.seq (max_seq rs)

-- COALESCE(MIN(seq), 0)
abbrev pub min_seq : List HubRow → ℕ
min_seq [] = 0
min_seq (r ∷ []) = r.seq
min_seq (r ∷ s ∷ rs) = min r.seq (min_seq (s ∷ rs))

pub record Bounds : Type 0 where
  pub oldest : ℕ
  pub latest : ℕ
  pub count : ℕ

unfoldable pub event_bounds : Io → String → Db → Result Bounds
event_bounds io agent_id db =
    let mine = select (of_agent agent_id) db.events in
    exec io query_bounds "query hub event bounds"
    >> ok (record { oldest = min_seq mine; latest = max_seq mine; count = length mine })

abbrev pub past : String → ℕ → HubRow → Bool
past agent_id after r = of_agent agent_id r && ltb after r.seq

-- The join of a snapshot with its agent.
abbrev pub joined : Option SnapshotRow → Option AgentRow → Option (String × String)
joined (some s) (some a) = some (s.state_json, a.last_seen_at)
joined _ _ = none

pub record Loaded (F : Type 0) : Type 0 where
  pub state : HudState F
  pub last_seen : Time

module _ {F : Type 0} (env : HubEnv F) where
  unfoldable pub decode_hub_row : HubRow → Result HubEvent
  decode_hub_row r = do
    event ← or_error (env.decode_event r.event_json) "decode hub event"
    within "stored hub event is invalid" (validate_event event)
    received ← or_error (env.parse r.received_at) "decode hub event received time"
    ok (record { seq = r.seq; agent_id = r.agent_id; received_at = received; event = event })

  unfoldable pub decode_hub_rows : List HubRow → Result (List HubEvent)
  decode_hub_rows [] = ok []
  decode_hub_rows (r ∷ rs) = do e ← decode_hub_row r; es ← decode_hub_rows rs; ok (e ∷ es)

  unfoldable pub list_events : Io → String → ℤ → ℕ → Db → Result (List HubEvent × ℕ)
  list_events io agent_id (negsuc n) limit db = err (message "event cursor must be non-negative")
  list_events io agent_id (pos after) limit db = do
    reject (ltb limit 1 || ltb 100 limit) (message "event page limit must be within 1..100")
    exec io query_events "query hub events"
    result ← decode_hub_rows (take limit (select (past agent_id after) db.events))
    exec io query_latest "query hub event high-water mark"
    ok (result, max_seq (select (of_agent agent_id) db.events))

  unfoldable pub decode_loaded : Floating F → Option (String × String) → Result (Option (Loaded F))
  decode_loaded fl none = ok none
  decode_loaded fl (some (payload, last_seen_raw)) = do
    state ← or_error (env.decode_state payload) "decode hub snapshot"
    within "stored hub snapshot is invalid" (validate_state fl state)
    last_seen ← or_error (env.parse last_seen_raw) "decode hub last-seen time"
    ok (some (record { state = state; last_seen = last_seen }))

  unfoldable pub load_state : Floating F → Io → String → Db → Result (Option (Loaded F))
  load_state fl io agent_id db =
      exec io query_state "load hub snapshot"
      >> decode_loaded fl (joined (lookup agent_id db.snapshots) (lookup agent_id db.agents))
