-- ===== src/Hub/Retained/Ends.antt =====
-- `PruneEvents` ends: a round that is followed by another deletes a row.
use ai_control_hud.Prelude.{
  ℕ, zero, suc, ◌+◌, ◌≤◌, ◌<◌, ◌≡◌, refl, String, Bool, true, List, [], ◌∷◌, inl, inr, length,
  select, any, arith, ok, some, ltb, Bool-cases, Option-cases,
}
use ai_control_hud.Hub.Store.{HubRow, Db, Io, of_agent}
use ai_control_hud.Hub.Retention.{
  Policy, Pruned, stopped, prune_tx, prune_agent, prune_agents, victims, delete_keys,
}
use ai_control_hud.Hub.Retained.Victims.{left_by-length, left_by_fewer, first_victim}
use ai_control_hud.Hub.Retained.Newest.{rows_of, prune_tx-cases}
use ai_control_hud.Hub.Retained.Kept.{round-cases}

any-select : (q p : HubRow → Bool) (l : List HubRow) → any q (select p l) ≡ true → any q l ≡ true
any-select q p [] h = h
any-select q p (r ∷ l) h = ground (arith, any-select q p l)

module _ (io : Io) (a cutoff : String) (p : Policy) (db db' : Db) (n : ℕ)
    (h : prune_tx io a cutoff p db ≡ ok (db', n)) where
  batch-le : length db'.events ≤ length db.events
  unfolding delete_keys
  batch-le = elim (prune_tx-cases io a cutoff p db db' n h) [
    | inl (_, same, _) ↦ rw same (omega arith)
    | inr d ↦ rw d.result (left_by-length _ db.events)
  ]

  batch_fewer : 0 < n → length db'.events < length db.events
  unfolding delete_keys victims
  batch_fewer some_gone = elim (prune_tx-cases io a cutoff p db db' n h) [
    | inl (_, _, nothing) ↦ absurd (omega (arith, nothing))
    | inr d ↦
        let one =
          first_victim d.force d.keep cutoff p.batch_size (rows_of a db)
            (omega (arith, d.counted)) in
        rw d.result (
          left_by_fewer (victims d.force d.keep cutoff p.batch_size (rows_of a db)) db.events
            (any-select _ (of_agent a) db.events one))
  ]

module _ (io : ℕ → Io) (a cutoff : String) (p : Policy) (batched : 0 < p.batch_size) where
  pub prune_agent_total :
      (fuel i : ℕ) (s : Pruned)
      → length s.db.events < fuel
      → (t : Pruned) × (prune_agent fuel io i a cutoff p s ≡ some t)
        × (length t.db.events ≤ length s.db.events)
  unfolding prune_agent
  prune_agent_total zero i s f = elim f [ ]
  prune_agent_total (suc fuel) i s f = elim (round-cases (io i) a cutoff p s) [
    | inl (e, r) ↦ (stopped s e, ground arith, omega arith)
    | inr (db', n, batch, r) ↦
        let m : Pruned = record s { db = db'; deleted = s.deleted + n } in
        elim (Bool-cases (ltb n p.batch_size)) [
          | inl few ↦ (m, ground arith, batch-le (io i) a cutoff p s.db db' n batch)
          | inr many ↦
              let fewer = batch_fewer (io i) a cutoff p s.db db' n batch (ground arith) in
              let (t, e, le) = prune_agent_total fuel (i + 1) m (omega (arith, fewer)) in
              (t, ground arith, omega (arith, le, fewer))
        ]
  ]

pub prune_agents_total :
    (io : String → ℕ → Io) (cutoff : String) (p : Policy) (fuel : ℕ) (ids : List String)
    (s : Pruned)
    → 0 < p.batch_size
    → length s.db.events < fuel
    → (t : Pruned) × (prune_agents fuel io ids cutoff p s ≡ some t)
unfolding prune_agents
prune_agents_total io cutoff p fuel [] s batched f = (s, refl)
prune_agents_total io cutoff p fuel (a ∷ ids) s batched f =
    let (m, e, le) = prune_agent_total (io a) a cutoff p batched fuel 0 s f in
    elim (Option-cases m.failure) [
      | inr (c, failed) ↦ (m, ground arith)
      | inl going ↦
          let (t, g) = prune_agents_total io cutoff p fuel ids m batched (omega (arith, le)) in
          (t, ground arith)
    ]
