-- ===== src/Remote/Delivery.antt =====
-- agent/internal/remote/runtime.go: the rounds of the agent's four loops. The delivery loop is cut
-- into its three steps, so that the observation loop may run between them: `fetch` up to the
-- upload, `send` up to the acknowledgement, and `acknowledge`. A failed step ends the round. The
-- pauses, and the end of a loop when its context is cancelled, are not modelled.
use ai_control_hud.Prelude.{
  ℕ, suc, ◌+◌, ◌*◌, String, not, ◌||◌, Option, none, some, List, [], ◌∷◌, map, ltb, Error, ok, err,
  if◌then◌else◌,
}
use ai_control_hud.Prelude.Result.{Result}
use ai_control_hud.Domain.{Time, HudState, Floating, is_zero}
use ai_control_hud.Events.{Event}
use ai_control_hud.Events.Outbox.{Env, Outbox, Io, observe, maintain, hour, pending, ack}
use ai_control_hud.Remote.Client.{Client, Network, upload_state, heartbeat, upload_events}

-- Where the delivery loop stands, with what it holds in its variables.
pub data Phase : Type 0 where
  resting : Phase
  holding : List Event → Phase
  uploaded : List String → Phase

pub record Agent : Type 0 where
  pub outbox : Outbox
  pub client : Client
  pub phase : Phase
  pub failures : ℕ
  pub next_maintenance : Time

-- DefaultBaselineCompactAfter, 180 days
abbrev pub compact_after : ℕ
compact_after = 180 * 24 * hour

-- DefaultOutboxMaintenanceEvery, 6 hours
abbrev pub maintenance_every : ℕ
maintenance_every = 6 * hour

abbrev pub event_ids : List Event → List String
event_ids = map (λ (e : Event). e.event_id)

-- The end of a round.
abbrev pub failed : Agent → Agent
failed a = record a { phase = resting; failures = suc a.failures }

abbrev pub succeeded : Agent → Agent
succeeded a = record a { phase = resting; failures = 0 }

-- What a round does with the events of `Pending`.
abbrev pub after_pending : Agent → Result (List Event) → Agent
after_pending a (err _) = failed a
after_pending a (ok []) = succeeded a
after_pending a (ok (e ∷ es)) = record a { phase = holding (e ∷ es) }

unfoldable pub fetch : Env → Io → Agent → Agent
fetch env io a = after_pending a (pending env io a.outbox 100)

-- What a round does with the ids after `UploadEvents`.
abbrev pub after_upload :
    {W : Type 0} → Agent → List String → Client × W × Result (Unit {0}) → Agent × W
after_upload a ids (c, w, err _) = (failed (record a { client = c }), w)
after_upload a ids (c, w, ok _) = (record a { client = c; phase = uploaded ids }, w)

-- A step that the loop is not at does nothing.
unfoldable pub send_from : {F W : Type 0} → Network F W → Time → Phase → Agent → W → Agent × W
send_from net now resting a w = (a, w)
send_from net now (holding es) a w =
    after_upload a (event_ids es) (upload_events net now es a.client w)
send_from net now (uploaded ids) a w = (a, w)

unfoldable pub send : {F W : Type 0} → Network F W → Time → Agent → W → Agent × W
unfolding send_from
send net now a w = send_from net now a.phase a w

abbrev pub after_ack : Agent → Outbox × Option Error → Agent
after_ack a (db, none) = succeeded (record a { outbox = db })
after_ack a (db, some _) = failed (record a { outbox = db })

unfoldable pub acknowledge_from : Io → Phase → Agent → Agent
acknowledge_from io resting a = a
acknowledge_from io (holding es) a = a
acknowledge_from io (uploaded ids) a = after_ack a (ack io ids a.outbox)

unfoldable pub acknowledge : Io → Agent → Agent
unfolding acknowledge_from
acknowledge io a = acknowledge_from io a.phase a

-- A round of `eventDeliveryLoop` that nothing runs between.
unfoldable pub deliver : {F W : Type 0} → Network F W → Env → Io → Io → Time → Agent → W → Agent × W
deliver net env io io' now a w =
    let (a', w') = send net now (fetch env io a) w in (acknowledge io' a', w')

-- A round of `eventObserveLoop`: what is observed, and the upkeep when it is due.
unfoldable pub observe_round :
    {F : Type 0} → Env → Io → Io → (ℕ → Option String) → HudState F → Time → Agent → Agent
observe_round env io io' draw state now a =
    let (db, _) = observe env io draw state now a.outbox in
    if is_zero a.next_maintenance || not (ltb now a.next_maintenance)
    then record a {
      outbox = (maintain env io' now compact_after db).0;
      next_maintenance = now + maintenance_every;
    }
    else record a { outbox = db }

abbrev pub keep_client : {W : Type 0} → Agent → Client × W × Result (Unit {0}) → Agent × W
keep_client a (c, w, _) = (record a { client = c }, w)

-- Rounds of `snapshotLoop` and of `heartbeatLoop`.
unfoldable pub snapshot_round :
    {F W : Type 0} → Network F W → Floating F → Time → HudState F → Agent → W → Agent × W
snapshot_round net fl now state a w = keep_client a (upload_state net fl now state a.client w)

unfoldable pub heartbeat_round :
    {F W : Type 0} → Network F W → Time → String → Agent → W → Agent × W
heartbeat_round net now version a w = keep_client a (heartbeat net now version a.client w)
