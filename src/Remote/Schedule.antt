-- ===== src/Remote/Schedule.antt =====
-- The agent and the hub together: every order in which the loops of
-- agent/internal/remote/runtime.go take their steps, with any faults of the databases and of the
-- network.
use ai_control_hud.Prelude.{ℕ, String, Option, List, [], ◌∷◌}
use ai_control_hud.Domain.{Time, HudState, Floating}
use ai_control_hud.Events.Outbox.{Env, Io}
use ai_control_hud.Hub.Store.{HubEnv}
use ai_control_hud.Remote.Client.{Client}
use ai_control_hud.Remote.Delivery.{
  Agent, resting, fetch, send, acknowledge, observe_round, snapshot_round, heartbeat_round,
}
use ai_control_hud.Remote.Wire.{Wire, Link, link}

pub record World (F : Type 0) : Type 0 where
  pub agent : Agent
  pub hub : Link F

-- A step of one of the loops, or a restart of the agent's process, which opens the outbox again.
pub data Action (F : Type 0) : Type 0 where
  fetches acknowledges : Io → Action F
  sends : Time → Action F
  observes : Io → Io → (ℕ → Option String) → HudState F → Time → Action F
  uploads : Time → HudState F → Action F
  beats : Time → String → Action F
  restarts : Client → Action F

abbrev pub join : {F : Type 0} → Agent × Link F → World F
join (a, l) = record { agent = a; hub = l }

module _ {F : Type 0} (fl : Floating F) (env : Env) (hub_env : HubEnv F) (wire : Wire F) where
  unfoldable pub step : Action F → World F → World F
  step (fetches io) w = record w { agent = fetch env io w.agent }
  step (acknowledges io) w = record w { agent = acknowledge io w.agent }
  step (sends now) w = join (send (link fl hub_env wire) now w.agent w.hub)
  step (observes io io' draw state now) w = record w {
    agent = observe_round env io io' draw state now w.agent;
  }
  step (uploads now state) w =
      join (snapshot_round (link fl hub_env wire) fl now state w.agent w.hub)
  step (beats now version) w =
      join (heartbeat_round (link fl hub_env wire) now version w.agent w.hub)
  step (restarts c) w = record w {
    agent = record w.agent { client = c; phase = resting; failures = 0; next_maintenance = 0 };
  }

  unfoldable pub run : List (Action F) → World F → World F
  run [] w = w
  run (a ∷ actions) w = run actions (step a w)
