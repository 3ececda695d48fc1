-- ===== src/Hub/Retained/Results.antt =====
-- `PruneEvents` of agent/internal/hub/retention.go, run on a sound log.
use ai_control_hud.Prelude.{
  ℕ, ◌-◌, ◌^◌, ◌≤◌, ◌<◌, ◌≡◌, sym, subst, String, ◌⊎◌, inl, inr, length, any, arith, ok, none, some,
  Bool-cases, Result-cases, message,
}
use ai_control_hud.Domain.{Time}
use ai_control_hud.Hub.Store.{Db, Io, query_agents}
use ai_control_hud.Hub.Log.Sound.{IsSound}
use ai_control_hud.Hub.Retention.{
  Policy, Pruned, validate_policy, agent_ids, prune_agents, prune_events,
}
use ai_control_hud.Hub.Retained.Newest.{rows_of}
use ai_control_hud.Hub.Retained.Settled.{IsPruned, IsPruned-nil}
use ai_control_hud.Hub.Retained.Kept.{Kept, Kept-refl}
use ai_control_hud.Hub.Retained.Runs.{names, unnamed_empty, prune_agents-SweptAll}
use ai_control_hud.Hub.Retained.Ends.{prune_agents_total}

validate_policy_bounds :
    (p : Policy) → validate_policy p ≡ ok tt → (p.min_events ≤ p.max_events) × (0 < p.batch_size)
unfolding validate_policy
validate_policy_bounds p h = ground arith

-- What the loops start from.
abbrev begun : Db → Pruned
begun db = record { db = db; deleted = 0; agents = length (agent_ids db.events); failure = none }

module _ (format : Time → String) (fuel : ℕ) (io : Io) (loops : String → ℕ → Io) (now : Time)
    (p : Policy) (db : Db) where
  abbrev cutoff : String
  cutoff = format (now - p.max_age)

  -- A run is refused at once, or it is a run of the loops.
  prune_events-cases :
      (t : Pruned)
      → prune_events format fuel io loops now p db ≡ some t
      → ((t.db ≡ db) × (t.failure ≡ none → ⊥))
        ⊎ ((validate_policy p ≡ ok tt)
            × (prune_agents fuel loops (agent_ids db.events) cutoff p (begun db) ≡ some t))
  unfolding prune_events
  prune_events-cases t h = elim (Result-cases (validate_policy p)) [
    | inr (e, bad) ↦ inl (ground arith, ground arith)
    | inl (u, good) ↦ elim (Bool-cases (io query_agents)) [
      | inr down ↦ inl (ground arith, ground arith)
      | inl up ↦ inr (good, ground arith)
    ]
  ]

  -- Of a sound log, under any faults of the database and however the run ends: the log stays
  -- sound, no key is given, and every agent keeps its newest `MinEvents` rows as they were.
  pub prune_events-Kept :
      (t : Pruned)
      → IsSound db
      → prune_events format fuel io loops now p db ≡ some t
      → Kept p db t.db
  prune_events-Kept t g h = elim (prune_events-cases t h) [
    | inl (same, _) ↦ subst (Kept p db) (sym same) (Kept-refl p db g)
    | inr (good, run) ↦
        (prune_agents-SweptAll fuel loops cutoff p (validate_policy_bounds p good).0
          (agent_ids db.events) (begun db) t g run).kept
  ]

  -- Of a sound log with keys below 2^63 - 1, a run that ends without an error, and between whose
  -- batches no request is served, leaves every agent at most `MaxEvents` rows, and none from before
  -- the cutoff that stands before the newest `MinEvents`.
  pub prune_events-IsPruned :
      (t : Pruned) (b : String)
      → IsSound db
      → db.last_seq < 2 ^ 63 - 1
      → prune_events format fuel io loops now p db ≡ some t
      → t.failure ≡ none
      → IsPruned p cutoff (rows_of b t.db)
  prune_events-IsPruned t b g fits h ended = elim (prune_events-cases t h) [
    | inl (_, failed) ↦ absurd (failed ended)
    | inr (good, run) ↦
        let w =
          prune_agents-SweptAll fuel loops cutoff p (validate_policy_bounds p good).0
            (agent_ids db.events) (begun db) t g run in
        elim (Bool-cases (any (names b) (agent_ids db.events))) [
          | inl named ↦ w.pruned b named fits ended
          | inr unnamed ↦ subst (IsPruned p cutoff) (sym (w.others b unnamed)) (
              subst (IsPruned p cutoff) (sym (unnamed_empty b db.events unnamed))
                (IsPruned-nil p cutoff))
        ]
  ]

  -- Fuel for one round more than there are rows in the log is enough, whatever the database does.
  pub prune_events_total :
      length db.events < fuel → (t : Pruned) × (prune_events format fuel io loops now p db ≡ some t)
  unfolding prune_events
  prune_events_total f = elim (Result-cases (validate_policy p)) [
    | inr (e, bad) ↦ (record { db = db; deleted = 0; agents = 0; failure = some e }, ground arith)
    | inl (u, good) ↦ elim (Bool-cases (io query_agents)) [
      | inr down ↦ (
        record {
          db = db;
          deleted = 0;
          agents = 0;
          failure = some (message "query event Agent IDs");
        },
        ground arith,
      )
      | inl up ↦
          let (t, e) =
            prune_agents_total loops cutoff p fuel (agent_ids db.events) (begun db)
              (validate_policy_bounds p good).1 f in
          (t, ground arith)
    ]
  ]
