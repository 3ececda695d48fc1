-- ===== src/Hub/Log/Inserts.antt =====
-- The loop of `RecordEvents`: what it adds to the log, and how it counts.
use mathlib.Core.List.{append-nil, append_assoc}
use ai_control_hud.Prelude.{
  ℕ, suc, ◌+◌, ◌≡◌, refl, sym, ap, ◌∙◌, subst, String, true, List, [], ◌∷◌, ◌++◌, any-append, All,
  length, length-append, str_eq, eq_iff, arith, ok, >>=-eq-ok, Bool-cases, inl, inr, if◌then◌else◌,
}
use ai_control_hud.Domain.{Time}
use ai_control_hud.Events.{Event}
use ai_control_hud.Hub.Store.{
  HubEnv, HubRow, Io, exec, insert_event, or_error, has_event, insert_row, insert_or_ignore,
  insert_events, Tally,
}

-- `u` has the rows `new` more than `t`, has counted them as accepted, and n events in all.
pub record Adds (new : List HubRow) (n : ℕ) (t u : Tally) : Type 0 where
  pub rows : u.db.events ≡ t.db.events ++ new
  pub accepted : u.accepted ≡ t.accepted + length new
  pub counted : u.accepted + u.duplicates ≡ t.accepted + t.duplicates + n

Adds-cons :
    (a b : List HubRow) (n : ℕ) (t u v : Tally)
    → Adds a 1 t u
    → Adds b n u v
    → Adds (a ++ b) (suc n) t v
Adds-cons a b n t u v p q = record {
  rows = q.rows ∙ ap (λ r. r ++ b) p.rows ∙ append_assoc t.db.events a b;
  accepted = omega (arith, p.accepted, q.accepted, length-append a b);
  counted = omega (arith, p.counted, q.counted);
}

module _ {F : Type 0} (env : HubEnv F) (agent_id : String) (received_at : Time) where
  -- The rows that one event adds.
  abbrev pub row_for : Event → String → Tally → HubRow
  row_for e payload t = record {
    seq = t.db.last_seq + 1;
    event_id = e.event_id;
    agent_id = agent_id;
    event_type = e.event_type;
    occurred_at = env.format e.occurred_at;
    received_at = env.format received_at;
    event_json = payload;
  }

  abbrev pub rows_for : Event → String → Tally → List HubRow
  rows_for e payload t = if has_event e.event_id t.db.events then [] else row_for e payload t ∷ []

  insert_or_ignore-Adds :
      (e : Event) (payload : String) (t : Tally)
      → Adds (rows_for e payload t) 1 t (insert_or_ignore env agent_id received_at e payload t)
  unfolding insert_or_ignore insert_row
  insert_or_ignore-Adds e payload t = elim (Bool-cases (has_event e.event_id t.db.events)) [
    | inl old ↦ rw old (record {
      rows = sym (append-nil t.db.events);
      accepted = omega arith;
      counted = omega arith;
    })
    | inr new ↦ rw new (record { rows = refl; accepted = omega arith; counted = omega arith })
  ]

  present_after :
      (e : Event) (payload : String) (t : Tally)
      → has_event e.event_id (insert_or_ignore env agent_id received_at e payload t).db.events
        ≡ true
  unfolding insert_or_ignore insert_row
  present_after e payload t = ground (
    arith,
    eq_iff e.event_id e.event_id,
    any-append (λ (r : HubRow). str_eq r.event_id e.event_id) t.db.events
        (row_for e payload t ∷ []),
  )

  pub still_present :
      (id : String) (xs new : List HubRow)
      → has_event id xs ≡ true
      → has_event id (xs ++ new) ≡ true
  still_present id xs new h =
      ground (arith, any-append (λ (r : HubRow). str_eq r.event_id id) xs new)

  -- A loop that succeeds has every event of its batch in the log.
  pub insert_events-Adds :
      (io : Io) (i : ℕ) (batch : List Event) (t u : Tally)
      → insert_events env io agent_id received_at i batch t ≡ ok u
      → (new : List HubRow) × Adds new (length batch) t u
        × All (λ (e : Event). has_event e.event_id u.db.events ≡ true) batch
  unfolding insert_events
  insert_events-Adds io i [] t u h =
      let same : t ≡ u = cc in
      (
        [],
        subst (Adds [] 0 t) same (record {
          rows = sym (append-nil t.db.events);
          accepted = omega arith;
          counted = omega arith;
        }),
        tt,
      )
  insert_events-Adds io i (e ∷ batch) t u h =
      let (payload, _, k) = >>=-eq-ok (or_error (env.encode_event e) "encode hub event") _ h in
      let (_, _, m) = >>=-eq-ok (exec io (insert_event i) "persist hub event") _ k in
      let (new, p, all) =
        insert_events-Adds io (i + 1) batch (insert_or_ignore env agent_id received_at e payload t)
          u m in
      (
        rows_for e payload t ++ new,
        Adds-cons (rows_for e payload t) new (length batch) t _ u
            (insert_or_ignore-Adds e payload t) p,
        (
          subst (λ l. has_event e.event_id l ≡ true) (sym p.rows)
              (still_present e.event_id _ new (present_after e payload t)),
          all,
        ),
      )

  known_event :
      (e : Event) (payload : String) (t : Tally)
      → has_event e.event_id t.db.events ≡ true
      → insert_or_ignore env agent_id received_at e payload t
        ≡ record t { duplicates = t.duplicates + 1 }
  unfolding insert_or_ignore
  known_event e payload t h = rw h

  -- A batch whose events are all in the log is counted as duplicates, and adds nothing.
  pub insert_events_known :
      (io : Io) (i : ℕ) (batch : List Event) (t u : Tally)
      → All (λ (e : Event). has_event e.event_id t.db.events ≡ true) batch
      → insert_events env io agent_id received_at i batch t ≡ ok u
      → (u.db ≡ t.db) × (u.accepted ≡ t.accepted) × (u.duplicates ≡ t.duplicates + length batch)
  unfolding insert_events
  insert_events_known io i [] t u a h = ground arith
  insert_events_known io i (e ∷ batch) t u a h =
      let (payload, _, k) = >>=-eq-ok (or_error (env.encode_event e) "encode hub event") _ h in
      let (_, _, m) = >>=-eq-ok (exec io (insert_event i) "persist hub event") _ k in
      let same : insert_or_ignore env agent_id received_at e payload t
          ≡ record t { duplicates = t.duplicates + 1 } =
        known_event e payload t a.0 in
      let p =
        insert_events_known io (i + 1) batch (record t { duplicates = t.duplicates + 1 }) u a.1
          (rw same at m) in
      (p.0, p.1, omega (arith, p.2))
