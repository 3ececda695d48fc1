-- ===== src/Hub/Store/Record.antt =====
-- `RecordState`, `RecordHeartbeat`, `RecordEvents` and `upsertAgent` of agent/internal/hub/store.go.
use ai_control_hud.Prelude.{
  ℕ, ◌+◌, String, Bool, Option, none, some, List, [], ◌∷◌, ◌++◌, any, upsert, str_eq, Error,
  message, ok, err, ◌>>=◌, ◌>>◌, if◌then◌else◌,
}
use ai_control_hud.Prelude.Result.{Result}
use ai_control_hud.Domain.{Time, HudState}
use ai_control_hud.Events.{Event}
use ai_control_hud.Hub.Store.Tables.{
  HubEnv, AgentRow, HubRow, Db, Io, exec, begin, upsert_agent_row, upsert_snapshot, commit,
  insert_event,
}

-- COALESCE(excluded.agent_version, agents.agent_version)
abbrev pub coalesce : Option String → Option String → Option String
coalesce (some v) old = some v
coalesce none old = old

abbrev pub version_of : Option AgentRow → Option String
version_of none = none
version_of (some r) = r.agent_version

abbrev pub or_error {ℓ} : {A : Type ℓ} → Option A → String → Result A
or_error none context = err (message context)
or_error (some a) context = ok a

pub record Tally : Type 0 where
  pub db : Db
  pub accepted : ℕ
  pub duplicates : ℕ

abbrev pub has_event : String → List HubRow → Bool
has_event id = any (λ (r : HubRow). str_eq r.event_id id)

module _ {F : Type 0} (env : HubEnv F) where
  unfoldable pub merge_agent : Time → Time → Option String → Option AgentRow → AgentRow
  merge_agent sent_at received_at version old = record {
    agent_version = coalesce version (version_of old);
    last_seen_at = env.format received_at;
    last_sent_at = env.format sent_at;
  }

  unfoldable pub upsert_agent : Io → String → Time → Time → Option String → Db → Result Db
  upsert_agent io agent_id sent_at received_at version db =
      exec io upsert_agent_row "persist hub agent heartbeat"
      >> ok (record db {
        agents = upsert agent_id (merge_agent sent_at received_at version) db.agents;
      })

  unfoldable pub put_snapshot : String → Time → Time → String → Db → Db
  put_snapshot agent_id sent_at received_at payload db = record db {
    snapshots =
        upsert agent_id
          (λ _. record {
            received_at = env.format received_at;
            sent_at = env.format sent_at;
            state_json = payload;
          })
          db.snapshots;
  }

  unfoldable pub record_state_tx : Io → String → Time → HudState F → Time → Db → Result Db
  record_state_tx io agent_id sent_at state received_at db = do
    payload ← or_error (env.encode_state state) "encode hub state"
    exec io begin "begin state transaction"
    db' ← upsert_agent io agent_id sent_at received_at none db
    exec io upsert_snapshot "persist hub snapshot"
    exec io commit "commit state transaction"
    ok (put_snapshot agent_id sent_at received_at payload db')

  unfoldable pub insert_row : String → Time → Event → String → Db → Db
  insert_row agent_id received_at event payload db = record db {
    events =
        db.events
        ++ record {
          seq = db.last_seq + 1;
          event_id = event.event_id;
          agent_id = agent_id;
          event_type = event.event_type;
          occurred_at = env.format event.occurred_at;
          received_at = env.format received_at;
          event_json = payload;
        }
          ∷ [];
    last_seq = db.last_seq + 1;
  }

  -- INSERT OR IGNORE INTO events; event_id is UNIQUE. One row, or none, is affected.
  unfoldable pub insert_or_ignore : String → Time → Event → String → Tally → Tally
  insert_or_ignore agent_id received_at event payload t =
      if has_event event.event_id t.db.events
      then record t { duplicates = t.duplicates + 1 }
      else record t {
        db = insert_row agent_id received_at event payload t.db;
        accepted = t.accepted + 1;
      }

  unfoldable pub insert_events : Io → String → Time → ℕ → List Event → Tally → Result Tally
  insert_events io agent_id received_at i [] t = ok t
  insert_events io agent_id received_at i (event ∷ batch) t = do
    payload ← or_error (env.encode_event event) "encode hub event"
    exec io (insert_event i) "persist hub event"
    insert_events io agent_id received_at (i + 1) batch
        (insert_or_ignore agent_id received_at event payload t)

  unfoldable pub record_events_tx : Io → String → Time → List Event → Time → Db → Result Tally
  record_events_tx io agent_id sent_at batch received_at db = do
    exec io begin "begin event transaction"
    db' ← upsert_agent io agent_id sent_at received_at none db
    t ←
        insert_events io agent_id received_at 0 batch
          (record { db = db'; accepted = 0; duplicates = 0 })
    exec io commit "commit event transaction"
    ok t

  -- Each operation returns the database after it, and its error or result. A transaction that does
  -- not commit leaves the database as it was.
  unfoldable pub record_state : Io → String → Time → HudState F → Time → Db → Db × Option Error
  record_state io agent_id sent_at state received_at db =
      elim (record_state_tx io agent_id sent_at state received_at db) [
        | ok db' ↦ (db', none)
        | err e ↦ (db, some e)
      ]

  unfoldable pub record_heartbeat :
      Io → String → Time → Time → Option String → Db → Db × Option Error
  record_heartbeat io agent_id sent_at received_at version db =
      elim (upsert_agent io agent_id sent_at received_at version db) [
        | ok db' ↦ (db', none)
        | err e ↦ (db, some e)
      ]

  unfoldable pub record_events : Io → String → Time → List Event → Time → Db → Db × Result (ℕ × ℕ)
  record_events io agent_id sent_at batch received_at db =
      elim (record_events_tx io agent_id sent_at batch received_at db) [
        | ok t ↦ (t.db, ok (t.accepted, t.duplicates))
        | err e ↦ (db, err e)
      ]
