-- ===== src/Hub/Cached/Crossed.antt =====
-- Two requests at once: `handleAgentState` of agent/internal/hub/server.go writes the database and
-- then the cache, each under a lock of its own, so that the steps of two requests may cross.
use ai_control_hud.Prelude.{◌≡◌, ap, subst, ◌∙◌, none, some, arith, ok, eq_iff}
use ai_control_hud.Domain.{Time, Floating}
use ai_control_hud.Domain.Validate.{validate}
use ai_control_hud.Hub.Models.{StateEnvelope}
use ai_control_hud.Hub.Store.{HubEnv, HubLaws, Io, record_state}
use ai_control_hud.Hub.Clone.{clone_hud_state, clone_hud_state-eq}
use ai_control_hud.Hub.Server.{Server, accept_state, load_primary_state, cache_load, cache_store}
use ai_control_hud.Hub.Cached.Loads.{stored, stored-record_state}

module _ {F : Type 0} (fl : Floating F) (env : HubEnv F) where
  -- The two steps of an accepted snapshot of the primary agent.
  unfoldable pub persist : Io → Time → StateEnvelope F → Server F → Server F
  persist io now e s = record s {
    db = (record_state env io e.agent_id e.sent_at e.state now s.db).0;
  }

  unfoldable pub publish : Time → StateEnvelope F → Server F → Server F
  unfolding cache_store
  publish now e s = record s { cache = cache_store e.state now s.cache }

  -- One request that nothing crosses takes the one step and then the other.
  steps_of_one :
      (io : Io) (now : Time) (e : StateEnvelope F) (s : Server F)
      → e.agent_id ≡ s.config.primary_agent_id
      → (record_state env io e.agent_id e.sent_at e.state now s.db).1 ≡ none
      → (accept_state fl env io now s e).0 ≡ publish now e (persist io now e s)
  unfolding accept_state persist publish
  steps_of_one io now e s k h = ground (arith, eq_iff e.agent_id s.config.primary_agent_id)

  -- Two snapshots of the primary agent that are accepted at once: if the second is written to the
  -- database after the first, but to the cache before it, reads serve the first one while the
  -- database holds the second, although either request alone keeps the two together.
  pub crossed_posts :
      (laws : HubLaws env) (io io' io'' : Io) (now later : Time) (a b : StateEnvelope F)
      (s : Server F)
      → a.agent_id ≡ s.config.primary_agent_id
      → b.agent_id ≡ s.config.primary_agent_id
      → validate fl b.state ≡ ok tt
      → (record_state env io a.agent_id a.sent_at a.state now s.db).1 ≡ none
      → (record_state env io' b.agent_id b.sent_at b.state later (persist io now a s).db).1 ≡ none
      → ((accept_state fl env io now s a).0 ≡ publish now a (persist io now a s))
        × ((accept_state fl env io' later (persist io now a s) b).0
            ≡ publish later b (persist io' later b (persist io now a s)))
        × ((load_primary_state fl env io''
              (publish now a (publish later b (persist io' later b (persist io now a s))))).1
            ≡ ok (some (record { state = a.state; last_seen = now })))
        × (stored fl env s.config.primary_agent_id
              (publish now a (publish later b (persist io' later b (persist io now a s)))).db
            ≡ ok (some (record { state = b.state; last_seen = later })))
  unfolding persist publish load_primary_state cache_load
  crossed_posts laws io io' io'' now later a b s p q v h k =
      let r = record_state env io' b.agent_id b.sent_at b.state later (persist io now a s).db in
      let whole : r ≡ (r.0, none) = ap (λ o. (r.0, o)) k in
      (
        steps_of_one io now a s p h,
        steps_of_one io' later b (persist io now a s) q k,
        ap (λ t. ok (some (record { state = t; last_seen = now })))
            (clone_hud_state-eq (clone_hud_state a.state) ∙ clone_hud_state-eq a.state),
        subst (λ i. stored fl env i r.0 ≡ ok (some (record { state = b.state; last_seen = later })))
            q
            (stored-record_state fl env laws io' b.agent_id b.sent_at later b.state _ r.0 v whole),
      )
