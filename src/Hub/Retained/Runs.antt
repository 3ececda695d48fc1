-- ===== src/Hub/Retained/Runs.antt =====
-- Whole runs of `PruneEvents`: what they keep, that they end, and what they leave.
use ai_control_hud.Prelude.{
  ℕ, zero, suc, ◌+◌, ◌-◌, ◌^◌, ◌≤◌, ◌<◌, ◌≡◌, ◌≢◌, refl, sym, ◌∙◌, subst, String, Bool, true, false,
  ◌||◌, List, [], ◌∷◌, inl, inr, select, any, str_eq, eq_iff, arith, Error, none, some, ltb,
  Bool-cases, Option-cases,
}
use ai_control_hud.Hub.Store.{HubRow, Io, of_agent}
use ai_control_hud.Hub.Log.Sound.{IsSound}
use ai_control_hud.Hub.Retention.{
  Policy, Pruned, stopped, prune_agent, insert_id, agent_ids, prune_agents,
}
use ai_control_hud.Hub.Retained.Newest.{rows_of}
use ai_control_hud.Hub.Retained.Settled.{IsPruned}
use ai_control_hud.Hub.Retained.Kept.{
  Kept, Kept-refl, Kept-trans, round-cases, batch-Kept, batch-others, batch-IsPruned,
}

-- What the rounds over one agent do to the log.
record Swept (p : Policy) (a cutoff : String) (s t : Pruned) : Type 0 where
  pub kept : Kept p s.db t.db
  pub others : (b : String) → a ≢ b → rows_of b t.db ≡ rows_of b s.db
  pub pruned : s.db.last_seq < 2 ^ 63 - 1 → t.failure ≡ none → IsPruned p cutoff (rows_of a t.db)

module _ (io : ℕ → Io) (a cutoff : String) (p : Policy)
    (ordered : p.min_events ≤ p.max_events) where
  -- The rounds that follow one, put behind it.
  Swept-after :
      (s m t : Pruned)
      → Kept p s.db m.db
      → ((b : String) → a ≢ b → rows_of b m.db ≡ rows_of b s.db)
      → Swept p a cutoff m t
      → Swept p a cutoff s t
  Swept-after s m t k o w = record {
    kept = Kept-trans p s.db m.db t.db k w.kept;
    others = λ b d. w.others b d ∙ o b d;
    pruned = λ fits. w.pruned (rw k.counter fits);
  }

  prune_agent-Swept :
      (fuel i : ℕ) (s t : Pruned)
      → IsSound s.db
      → prune_agent fuel io i a cutoff p s ≡ some t
      → Swept p a cutoff s t
  unfolding prune_agent
  prune_agent-Swept zero i s t g h = cc
  prune_agent-Swept (suc fuel) i s t g h = elim (round-cases (io i) a cutoff p s) [
    | inl (e, r) ↦
        let done : t ≡ stopped s e = ground arith in
        subst (Swept p a cutoff s) (sym done) (record {
          kept = Kept-refl p s.db g;
          others = λ b d. refl;
          pruned = λ fits none_failed. cc;
        })
    | inr (db', n, batch, r) ↦
        let m : Pruned = record s { db = db'; deleted = s.deleted + n } in
        let k = batch-Kept (io i) a cutoff p s.db db' n ordered g batch in
        let o = batch-others (io i) a cutoff p s.db db' n ordered g batch in
        elim (Bool-cases (ltb n p.batch_size)) [
          | inl few ↦
              let done : t ≡ m = ground arith in
              subst (Swept p a cutoff s) (sym done) (record {
                kept = k;
                others = o;
                pruned = λ fits ended.
                    batch-IsPruned (io i) a cutoff p s.db db' n ordered g batch fits (ground arith);
              })
          | inr many ↦
              Swept-after s m t k o (prune_agent-Swept fuel (i + 1) m t k.sound (ground arith))
        ]
  ]

abbrev pub names : String → String → Bool
names b c = str_eq c b

any-insert_id :
    (b a : String) (ids : List String)
    → any (names b) (insert_id a ids) ≡ (names b a || any (names b) ids)
unfolding insert_id
any-insert_id b a [] = refl
any-insert_id b a (c ∷ ids) = ground (arith, eq_iff a c, any-insert_id b a ids)

pub unnamed_empty :
    (b : String) (rows : List HubRow)
    → any (names b) (agent_ids rows) ≡ false
    → select (of_agent b) rows ≡ []
unfolding agent_ids
unnamed_empty b [] h = refl
unnamed_empty b (r ∷ rows) h =
    ground (arith, any-insert_id b r.agent_id (agent_ids rows), unnamed_empty b rows)

-- What the outer loop does to the log: the agents that it names are pruned, the others untouched.
pub record SweptAll (p : Policy) (ids : List String) (cutoff : String) (s t : Pruned) : Type 0 where
  pub kept : Kept p s.db t.db
  pub others : (b : String) → any (names b) ids ≡ false → rows_of b t.db ≡ rows_of b s.db
  pub pruned :
      (b : String)
      → any (names b) ids ≡ true
      → s.db.last_seq < 2 ^ 63 - 1
      → t.failure ≡ none
      → IsPruned p cutoff (rows_of b t.db)

module _ (fuel : ℕ) (io : String → ℕ → Io) (cutoff : String) (p : Policy)
    (ordered : p.min_events ≤ p.max_events) where
  SweptAll-stop :
      (a : String) (ids : List String) (s t : Pruned) (e : Error)
      → t.failure ≡ some e
      → Swept p a cutoff s t
      → SweptAll p (a ∷ ids) cutoff s t
  SweptAll-stop a ids s t e failed w = record {
    kept = w.kept;
    others = λ b out. w.others b (λ same. ground (arith, eq_iff a b));
    pruned = λ b in_ids fits ended. cc;
  }

  SweptAll-after :
      (a : String) (ids : List String) (s m t : Pruned)
      → m.failure ≡ none
      → Swept p a cutoff s m
      → SweptAll p ids cutoff m t
      → SweptAll p (a ∷ ids) cutoff s t
  SweptAll-after a ids s m t going w v = record {
    kept = Kept-trans p s.db m.db t.db w.kept v.kept;
    others = λ b out. v.others b (ground arith) ∙ w.others b (λ same. ground (arith, eq_iff a b));
    pruned = λ b in_ids fits ended. elim (Bool-cases (any (names b) ids)) [
      | inl later ↦ v.pruned b later (rw w.kept.counter fits) ended
      | inr not_later ↦
          let same : a ≡ b = (eq_iff a b).0 (ground arith) in
          subst (IsPruned p cutoff) (sym (v.others b not_later))
            (subst (λ (c : String). IsPruned p cutoff (rows_of c m.db)) same (w.pruned fits going))
    ];
  }

  pub prune_agents-SweptAll :
      (ids : List String) (s t : Pruned)
      → IsSound s.db
      → prune_agents fuel io ids cutoff p s ≡ some t
      → SweptAll p ids cutoff s t
  unfolding prune_agents
  prune_agents-SweptAll [] s t g h =
      let done : t ≡ s = ground arith in
      subst (SweptAll p [] cutoff s) (sym done) (record {
        kept = Kept-refl p s.db g;
        others = λ b out. refl;
        pruned = λ b in_ids fits ended. cc;
      })
  prune_agents-SweptAll (a ∷ ids) s t g h =
      elim (Option-cases (prune_agent fuel (io a) 0 a cutoff p s)) [
        | inl out ↦ absurd (ground arith)
        | inr (m, e) ↦
            let w = prune_agent-Swept (io a) a cutoff p ordered fuel 0 s m g e in
            elim (Option-cases m.failure) [
              | inr (c, failed) ↦
                  let done : t ≡ m = ground arith in
                  subst (SweptAll p (a ∷ ids) cutoff s) (sym done)
                    (SweptAll-stop a ids s m c failed w)
              | inl going ↦
                  SweptAll-after a ids s m t going w
                    (prune_agents-SweptAll ids m t w.kept.sound (ground arith))
            ]
      ]
