-- ===== src/Hub/Server/Types.antt =====
-- The server's state, its requests and its responses (agent/internal/hub/server.go, models.go).
use ai_control_hud.Prelude.{
  ℕ, ℤ, String, str_append, Bool, false, Option, none, some, List, Error, message, err, ok, ◌==◌,
  str_eq, codes, size, if◌then◌else◌,
}
use ai_control_hud.Prelude.Result.{Result}
use ai_control_hud.Domain.{Time, SourceStatus}
use ai_control_hud.Hub.Store.{Db, Loaded, HubEvent}

-- The fields of `Config` that the handlers read; durations are nanoseconds.
pub record Config : Type 0 where
  pub agent_token : String
  pub primary_agent_id : String
  pub stale_after : ℕ

-- `cache` is primaryStateCache: none while its `valid` is false.
pub record Server (F : Type 0) : Type 0 where
  pub config : Config
  pub version : String
  pub started_at : Time
  pub db : Db
  pub cache : Option (Loaded F)

-- What follows the first JSON value of a body.
pub data Rest : Type 0 where
  eof another broken : Rest

-- A body, as the JSON decoder reads it: its first value, if it is one of `A`, and what follows.
pub record Body (A : Type 0) : Type 0 where
  pub first : Option A
  pub rest : Rest

pub record Request (A : Type 0) : Type 0 where
  pub is_post : Bool
  pub authorization : String
  pub body : Body A

pub record AgentReceipt : Type 0 where
  pub agent_id : String
  pub received_at : Time

pub record EventReceipt : Type 0 where
  pub agent_id : String
  pub received_at : Time
  pub accepted : ℕ
  pub duplicates : ℕ

pub record HealthResponse : Type 0 where
  pub time : Time
  pub zcode : SourceStatus
  pub command_code : SourceStatus

pub record EventPage : Type 0 where
  pub events : List HubEvent
  pub next_after : ℤ
  pub latest_seq : ℕ
  pub oldest_seq : ℕ

-- The status, and the error's detail or the value that is written.
pub data Response (A : Type 0) : Type 0 where
  refused : ℕ → Error → Response A
  written : A → Response A

-- `decodeRequest`
unfoldable pub decode_request : {A : Type 0} → Body A → Result A
decode_request b = elim b.first [
  | none ↦ err (message "invalid JSON body")
  | some a ↦ elim b.rest [
    | eof ↦ ok a
    | another ↦ err (message "invalid JSON body: multiple values")
    | broken ↦ err (message "invalid JSON body")
  ]
]

-- The header that `authorized` expects for a token.
abbrev pub bearer : String → String
bearer token = str_append "Bearer " token

-- `authorized`: a comparison of lengths, then one in constant time.
unfoldable pub authorized : {F : Type 0} → Server F → String → Bool
authorized s actual =
    let expected = bearer s.config.agent_token in
    if size (codes actual) == size (codes expected) then str_eq actual expected else false
