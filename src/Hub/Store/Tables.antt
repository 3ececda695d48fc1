-- ===== src/Hub/Store/Tables.antt =====
-- The tables of `OpenStore` in agent/internal/hub/store.go.
use Prim.Native.Nat.{Ordering}
use Prim.Native.String.{compare}
use ai_control_hud.Prelude.{
  ℕ, String, Bool, true, false, not, Option, List, [], Table, message, some, reject, ◌≡◌,
}
use ai_control_hud.Prelude.Result.{Result}
use ai_control_hud.Domain.{Time, HudState}
use ai_control_hud.Events.{Event, EventType}

-- `format` is `formatTime`: UTC().Format with the layout of the database columns.
pub record HubEnv (F : Type 0) : Type 0 where
  pub encode_state : HudState F → Option String
  pub decode_state : String → Option (HudState F)
  pub encode_event : Event → Option String
  pub decode_event : String → Option Event
  pub format : Time → String
  pub parse : String → Option Time

-- What the code relies on: a decoder undoes its encoder. Texts of times end with the year 9999, and
-- no clock of agent or hub is taken to stand behind it.
pub record HubLaws {F : Type 0} (env : HubEnv F) : Type 0 where
  pub state_codec :
      (s : HudState F) (j : String) → env.encode_state s ≡ some j → env.decode_state j ≡ some s
  pub event_codec :
      (e : Event) (j : String) → env.encode_event e ≡ some j → env.decode_event j ≡ some e
  pub time_codec : (t : Time) → env.parse (env.format t) ≡ some t

-- `<` on a text column: the bytes are compared.
abbrev pub text_ltb : String → String → Bool
text_ltb a b = elim (compare a b) [ Ordering.lt ↦ true | _ ↦ false ]

-- A row of agents, without its key.
pub record AgentRow : Type 0 where
  pub agent_version : Option String
  pub last_seen_at : String
  pub last_sent_at : String

-- A row of snapshots, without its key.
pub record SnapshotRow : Type 0 where
  pub received_at : String
  pub sent_at : String
  pub state_json : String

-- A row of events.
pub record HubRow : Type 0 where
  pub seq : ℕ
  pub event_id : String
  pub agent_id : String
  pub event_type : EventType
  pub occurred_at : String
  pub received_at : String
  pub event_json : String

-- The rows of events are held in the order of their key; `last_seq` is the highest key that
-- AUTOINCREMENT has given.
pub record Db : Type 0 where
  pub agents : Table AgentRow
  pub snapshots : Table SnapshotRow
  pub events : List HubRow
  pub last_seq : ℕ

abbrev pub created : Db
created = record { agents = []; snapshots = []; events = []; last_seq = 0 }

pub data Statement : Type 0 where
  begin upsert_agent_row upsert_snapshot commit query_state query_events query_latest : Statement
  query_bounds query_agents context_alive count_retained read_floor read_minimum prune : Statement
  insert_event : ℕ → Statement

abbrev pub Io : Type 0
Io = Statement → Bool

abbrev pub exec : Io → Statement → String → Result (Unit {0})
exec io s context = reject (not (io s)) (message context)
