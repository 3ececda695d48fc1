-- ===== src/Remote/Safety.antt =====
-- No event is lost between the agent's outbox and the hub's log, in any schedule of
-- agent/internal/remote/runtime.go.
use ai_control_hud.Prelude.{◌≡◌, refl, sym, subst, String, true, some, List, [], ◌∷◌, ok, err}
use ai_control_hud.Prelude.Result.{Result}
use ai_control_hud.Domain.{Time, HudState, Floating}
use ai_control_hud.Events.{Event}
use ai_control_hud.Events.Outbox.{Env}
use ai_control_hud.Hub.Models.{EventBatch}
use ai_control_hud.Hub.Store.{HubEnv}
use ai_control_hud.Hub.Log.Sound.{IsSound}
use ai_control_hud.Remote.Client.{Client, upload_events}
use ai_control_hud.Remote.Delivery.{
  Agent, Phase, resting, holding, uploaded, event_ids, after_upload, send, send_from,
  snapshot_round, heartbeat_round,
}
use ai_control_hud.Remote.Wire.{Wire, Link}
use ai_control_hud.Remote.Grows.{Grows}
use ai_control_hud.Remote.Landing.{Lists}
use ai_control_hud.Remote.Schedule.{
  World, Action, fetches, acknowledges, sends, observes, uploads, beats, restarts, step, run,
}
use ai_control_hud.Remote.Uploads.{
  net, batch_of, upload_events-Forward, upload_events-Delivered, upload_state-Forward,
  heartbeat-Forward,
}
use ai_control_hud.Remote.Keeps.{
  Told, known, Keeps, Told-Grows, Keeps-local, Keeps-remote, fetch-Keeps, acknowledge-Keeps,
  observe_round-Keeps,
}

module _ {F : Type 0} (fl : Floating F) (hub_env : HubEnv F) (wire : Wire F) where
  snapshot_round-Keeps :
      (now : Time) (s : HudState F) (a : Agent) (l : Link F)
      → let o = snapshot_round (net fl hub_env wire) fl now s a l in Keeps a l o.0 o.1
  unfolding snapshot_round
  snapshot_round-Keeps now s a l =
      let g = upload_state-Forward fl hub_env wire now s a.client l in
      Keeps-remote a _ l _ refl (Told-Grows l.server.db _ a.phase g) g

  heartbeat_round-Keeps :
      (now : Time) (v : String) (a : Agent) (l : Link F)
      → let o = heartbeat_round (net fl hub_env wire) now v a l in Keeps a l o.0 o.1
  unfolding heartbeat_round
  heartbeat_round-Keeps now v a l =
      let g = heartbeat-Forward fl hub_env wire now v a.client l in
      Keeps-remote a _ l _ refl (Told-Grows l.server.db _ a.phase g) g

  module _
      (survives : (b b' : EventBatch)
        → (wire.carry_events b).first ≡ some b'
        → event_ids b'.events ≡ event_ids b.events) where
    after_upload-Keeps :
        (a : Agent) (ids : List String) (l : Link F) (o : Client × Link F × Result (Unit {0}))
        → Grows l.server.db o.1.server.db
        → (o.2 ≡ ok tt → Lists o.1.server.db ids)
        → Keeps a l (after_upload a ids o).0 (after_upload a ids o).1
    after_upload-Keeps a ids l (c, l', err e) g d = Keeps-remote a _ l l' refl (λ _. tt) g
    after_upload-Keeps a ids l (c, l', ok tt) g d = Keeps-remote a _ l l' refl (λ _. d refl) g

    upload_events-Lists :
        (now : Time) (es : List Event) (c : Client) (l : Link F)
        → (upload_events (net fl hub_env wire) now es c l).2 ≡ ok tt
        → Lists (upload_events (net fl hub_env wire) now es c l).1.server.db (event_ids es)
    upload_events-Lists now [] c l h = tt
    upload_events-Lists now (e ∷ es) c l h =
        let d = upload_events-Delivered fl hub_env wire now e es c l h in
        subst (Lists (upload_events (net fl hub_env wire) now (e ∷ es) c l).1.server.db)
          (survives (batch_of c now (e ∷ es)) d.batch d.read) d.held

    send_from-Keeps :
        (now : Time) (p : Phase) (a : Agent) (l : Link F)
        → let o = send_from (net fl hub_env wire) now p a l in Keeps a l o.0 o.1
    unfolding send_from
    send_from-Keeps now resting a l = Keeps-local a a l (λ t. t) (λ id h. h)
    send_from-Keeps now (holding es) a l =
        after_upload-Keeps a (event_ids es) l _
          (upload_events-Forward fl hub_env wire now es a.client l)
          (upload_events-Lists now es a.client l)
    send_from-Keeps now (uploaded ids) a l = Keeps-local a a l (λ t. t) (λ id h. h)

    step-Keeps :
        (env : Env) (x : Action F) (w : World F)
        → let w' = step fl env hub_env wire x w in Keeps w.agent w.hub w'.agent w'.hub
    unfolding step send
    step-Keeps env (fetches io) w = fetch-Keeps env io w.agent w.hub
    step-Keeps env (acknowledges io) w = acknowledge-Keeps io w.agent w.hub
    step-Keeps env (sends now) w = send_from-Keeps now w.agent.phase w.agent w.hub
    step-Keeps env (observes io io' draw s now) w =
        observe_round-Keeps env io io' draw s now w.agent w.hub
    step-Keeps env (uploads now s) w = snapshot_round-Keeps now s w.agent w.hub
    step-Keeps env (beats now v) w = heartbeat_round-Keeps now v w.agent w.hub
    step-Keeps env (restarts c) w = Keeps-local w.agent _ w.hub (λ _. tt) (λ id h. h)

    run_on :
        (env : Env) (xs : List (Action F)) (w : World F) (id : String)
        → Told w.agent.phase w.hub.server.db
        → IsSound w.hub.server.db
        → known id w.agent w.hub ≡ true
        → (known id (run fl env hub_env wire xs w).agent (run fl env hub_env wire xs w).hub ≡ true)
          × IsSound (run fl env hub_env wire xs w).hub.server.db
    unfolding run
    run_on env [] w id t s k = (k, s)
    run_on env (x ∷ xs) w id t s k =
        let p = step-Keeps env x w in
        run_on env xs (step fl env hub_env wire x w) id (p.told t) (p.forward.sound s)
          (p.kept id t k)

    -- Where the JSON of a batch keeps the ids of its events: in any order of the loops' steps and
    -- with restarts of the agent, with any faults of the databases and of the network, from a
    -- delivery loop at rest and a sound log, an event that was in the outbox or in the hub's log is
    -- in one of them, and the log is sound, so that it has each event once.
    pub run_keeps :
        (env : Env) (xs : List (Action F)) (w : World F) (id : String)
        → w.agent.phase ≡ resting
        → IsSound w.hub.server.db
        → known id w.agent w.hub ≡ true
        → (known id (run fl env hub_env wire xs w).agent (run fl env hub_env wire xs w).hub ≡ true)
          × IsSound (run fl env hub_env wire xs w).hub.server.db
    run_keeps env xs w id rest s k =
        run_on env xs w id (subst (λ p. Told p w.hub.server.db) (sym rest) tt) s k
