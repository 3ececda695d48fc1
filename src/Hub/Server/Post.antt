-- ===== src/Hub/Server/Post.antt =====
-- `handleAgentState`, `handleAgentHeartbeat` and `handleAgentEvents` of
-- agent/internal/hub/server.go.
use ai_control_hud.Prelude.{not, none, some, message, ok, err, ◌>>=◌, ◌>>◌, str_eq, if◌then◌else◌}
use ai_control_hud.Prelude.Result.{Result}
use ai_control_hud.Domain.{Time, Floating}
use ai_control_hud.Hub.Models.{
  StateEnvelope, Heartbeat, EventBatch, validate_envelope, validate_heartbeat, validate_batch,
}
use ai_control_hud.Hub.Store.{HubEnv, Io, record_state, record_heartbeat, record_events}
use ai_control_hud.Hub.Server.Types.{
  Server, Request, Response, refused, written, AgentReceipt, EventReceipt, decode_request,
  authorized,
}
use ai_control_hud.Hub.Server.Project.{cache_store, cache_heartbeat}

-- The checks before a handler acts: the method, the token, the JSON body and its `Validate`.
unfoldable pub admit : {F A : Type 0} → (A → Result (Unit {0})) → Server F → Request A → Response A
unfolding authorized decode_request
admit check s r =
    if not r.is_post
    then refused 405 (message "method not allowed")
    else if not (authorized s r.authorization)
    then refused 401 (message "invalid agent token")
    else elim (do a ← decode_request r.body; check a; ok a) [
      | err e ↦ refused 422 e
      | ok a ↦ written a
    ]

-- A handler stops at a check that fails.
abbrev pub after_checks :
    {F A B : Type 0} → Server F → Response A → (A → Server F × Response B) → Server F × Response B
after_checks s (refused code e) act = (s, refused code e)
after_checks s (written a) act = act a

module _ {F : Type 0} (fl : Floating F) (env : HubEnv F) where
  -- What is done with an envelope that passed the checks.
  unfoldable pub accept_state :
      Io → Time → Server F → StateEnvelope F → Server F × Response AgentReceipt
  unfolding cache_store
  accept_state io now s e =
      let (db', failure) = record_state env io e.agent_id e.sent_at e.state now s.db in
      let s' = record s { db = db' } in
      elim failure [
        | some _ ↦ (s', refused 500 (message "persist state failed"))
        | none ↦ (
          if str_eq e.agent_id s.config.primary_agent_id
              then record s' { cache = cache_store e.state now s.cache }
              else s',
          written (record { agent_id = e.agent_id; received_at = now }),
        )
      ]

  unfoldable pub accept_heartbeat :
      Io → Time → Server F → Heartbeat → Server F × Response AgentReceipt
  unfolding cache_heartbeat
  accept_heartbeat io now s h =
      let (db', failure) = record_heartbeat env io h.agent_id h.sent_at now h.agent_version s.db in
      let s' = record s { db = db' } in
      elim failure [
        | some _ ↦ (s', refused 500 (message "persist heartbeat failed"))
        | none ↦ (
          if str_eq h.agent_id s.config.primary_agent_id
              then record s' { cache = cache_heartbeat now s.cache }
              else s',
          written (record { agent_id = h.agent_id; received_at = now }),
        )
      ]

  unfoldable pub accept_events :
      Io → Time → Server F → EventBatch → Server F × Response EventReceipt
  accept_events io now s b =
      let (db', result) = record_events env io b.agent_id b.sent_at b.events now s.db in
      let s' = record s { db = db' } in
      elim result [
        | err _ ↦ (s', refused 500 (message "persist events failed"))
        | ok (accepted, duplicates) ↦ (
          s',
          written (record {
            agent_id = b.agent_id;
            received_at = now;
            accepted = accepted;
            duplicates = duplicates;
          }),
        )
      ]

  unfoldable pub handle_agent_state :
      Io → Time → Server F → Request (StateEnvelope F) → Server F × Response AgentReceipt
  handle_agent_state io now s r =
      after_checks s (admit (validate_envelope fl) s r) (accept_state io now s)

  unfoldable pub handle_agent_heartbeat :
      Io → Time → Server F → Request Heartbeat → Server F × Response AgentReceipt
  handle_agent_heartbeat io now s r =
      after_checks s (admit validate_heartbeat s r) (accept_heartbeat io now s)

  unfoldable pub handle_agent_events :
      Io → Time → Server F → Request EventBatch → Server F × Response EventReceipt
  handle_agent_events io now s r =
      after_checks s (admit validate_batch s r) (accept_events io now s)
