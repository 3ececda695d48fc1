-- ===== src/Remote/Empties.antt =====
-- A round of `eventDeliveryLoop` (agent/internal/remote/runtime.go) that meets no fault empties an
-- outbox of at most 100 events.
use ai_control_hud.Prelude.{
  ℕ, zero, suc, ◌≤◌, ◌≡◌, refl, ap, String, true, false, some, List, [], ◌∷◌, All, take, length,
  arith, ok,
}
use ai_control_hud.Domain.{Time, Floating}
use ai_control_hud.Events.{Event}
use ai_control_hud.Events.Outbox.{Env, EventRow, pending, decode_rows}
use ai_control_hud.Hub.Models.{EventBatch, validate_batch}
use ai_control_hud.Hub.Store.{HubEnv}
use ai_control_hud.Hub.Server.{eof}
use ai_control_hud.Remote.Config.{is_auto_discover}
use ai_control_hud.Remote.Client.{event_upload, check_upload, upload_events}
use ai_control_hud.Remote.Delivery.{
  Agent, resting, event_ids, fetch, send, send_from, acknowledge, acknowledge_from, deliver,
}
use ai_control_hud.Remote.Wire.{Wire, Link, Fate, answered}
use ai_control_hud.Remote.Uploads.{net, batch_of}
use ai_control_hud.Remote.Drain.{Covers, ack_all, decoded_checked, posted}

take_all : (n : ℕ) (xs : List EventRow) → length xs ≤ n → take n xs ≡ xs
take_all zero [] h = refl
take_all zero (x ∷ xs) h = absurd (omega arith)
take_all (suc n) [] h = refl
take_all (suc n) (x ∷ xs) h = ap (λ l. x ∷ l) (take_all n xs (omega arith))

module _ {F : Type 0} (fl : Floating F) (env : Env) (hub_env : HubEnv F) (wire : Wire F) (a : Agent)
    (l : Link F) (e : Event) (es : List Event) (b : EventBatch) (sent now : Time) (fs : List Fate)
    (few : length a.outbox.event_outbox ≤ 100)
    (decoded : decode_rows env a.outbox.event_outbox ≡ ok (e ∷ es))
    (named : Covers (event_ids (e ∷ es)) a.outbox.event_outbox)
    (configured : is_auto_discover a.client.config ≡ false)
    (made : wire.makes_request a.client.config.base_url ≡ true)
    (encoded : wire.encodes (event_upload (batch_of a.client sent (e ∷ es))) ≡ true)
    (reached : l.fates ≡ answered (λ _. true) now ∷ fs)
    (signed : a.client.config.token ≡ l.server.config.agent_token)
    (carried : wire.carry_events (batch_of a.client sent (e ∷ es))
      ≡ record { first = some b; rest = eof })
    (valid : validate_batch b ≡ ok tt)
    (storable : All (λ v. (j : String) × (hub_env.encode_event v ≡ some j)) b.events) where
  read : pending env (λ _. true) a.outbox 100 ≡ ok (e ∷ es)
  unfolding pending
  read = rw (take_all 100 a.outbox.event_outbox few) decoded

  checked : check_upload (e ∷ es) ≡ ok tt
  unfolding check_upload
  checked =
      let (c, n) = decoded_checked env a.outbox.event_outbox (e ∷ es) decoded in
      ground (arith, c, n)

  uploaded_ok :
      (l' : Link F) × (upload_events (net fl hub_env wire) sent (e ∷ es) a.client l
        ≡ (a.client, l', ok tt))
  unfolding upload_events
  uploaded_ok =
      let (l', p) =
        posted fl hub_env wire a.client l (batch_of a.client sent (e ∷ es)) b now fs configured made
          encoded reached signed carried valid storable in
      (l', rw (upload_events, checked, p) refl)

  -- An outbox of at most 100 rows whose events can be read, under their own ids, with a client that
  -- has the hub's address and token, and events that the hub accepts: a round in which no statement
  -- fails and the request is answered leaves the outbox empty, and no failures.
  pub deliver_empties :
      ((deliver (net fl hub_env wire) env (λ _. true) (λ _. true) sent a l).0.outbox.event_outbox
        ≡ [])
      × ((deliver (net fl hub_env wire) env (λ _. true) (λ _. true) sent a l).0.failures ≡ 0)
      × ((deliver (net fl hub_env wire) env (λ _. true) (λ _. true) sent a l).0.phase ≡ resting)
  unfolding deliver fetch send send_from acknowledge acknowledge_from
  deliver_empties =
      let (l', u) = uploaded_ok in
      let (y, k, n) = ack_all e.event_id (event_ids es) a.outbox named in
      rw (read, u, k) (n, refl, refl)
