-- ===== src/Hub/Log/Sound.antt =====
-- The log is in the order of its keys, below the highest key given, and names no event twice.
use ai_control_hud.Prelude.{
  ℕ, ◌+◌, ◌≤◌, ◌<◌, ◌≡◌, refl, subst, ok, Result-cases, upsert, none, >>=-eq-ok, Bool-cases, inl,
  inr, String, false, List, [], ◌∷◌, ◌++◌, any-append, str_eq, eq_iff, arith,
}
use ai_control_hud.Domain.{Time}
use ai_control_hud.Events.{Event}
use ai_control_hud.Hub.Store.{
  HubEnv, HubRow, Db, has_event, insert_row, insert_or_ignore, Tally, created, Io, exec,
  insert_events, insert_event, or_error, record_events, record_events_tx, upsert_agent, merge_agent,
}

-- The keys of the rows ascend strictly from above `lo` up to at most `hi`.
abbrev pub Keyed : ℕ → List HubRow → ℕ → Type 0
Keyed lo [] hi = lo ≤ hi
Keyed lo (r ∷ rs) hi = (lo < r.seq) × Keyed r.seq rs hi

abbrev pub UniqueIds : List HubRow → Type 0
UniqueIds [] = Unit {0}
UniqueIds (r ∷ rs) = (has_event r.event_id rs ≡ false) × UniqueIds rs

pub record IsSound (db : Db) : Type 0 where
  pub keyed : Keyed 0 db.events db.last_seq
  pub unique : UniqueIds db.events

pub Keyed-append :
    (lo hi : ℕ) (rs : List HubRow) (r : HubRow)
    → Keyed lo rs hi
    → r.seq ≡ hi + 1
    → Keyed lo (rs ++ r ∷ []) (hi + 1)
Keyed-append lo hi [] r k e = omega arith
Keyed-append lo hi (q ∷ rs) r k e = (k.0, Keyed-append q.seq hi rs r k.1 e)

UniqueIds-append :
    (rs : List HubRow) (r : HubRow)
    → UniqueIds rs
    → has_event r.event_id rs ≡ false
    → UniqueIds (rs ++ r ∷ [])
UniqueIds-append [] r u h = ground arith
UniqueIds-append (q ∷ rs) r u h = ground (
  arith,
  UniqueIds-append rs r u.1,
  any-append (λ (x : HubRow). str_eq x.event_id q.event_id) rs (r ∷ []),
  eq_iff q.event_id r.event_id,
  eq_iff r.event_id q.event_id,
)

pub IsSound-created : IsSound created
IsSound-created = omega arith

module _ {F : Type 0} (env : HubEnv F) (agent_id : String) (received_at : Time) where
  insert_row-IsSound :
      (e : Event) (payload : String) (db : Db)
      → has_event e.event_id db.events ≡ false
      → IsSound db
      → IsSound (insert_row env agent_id received_at e payload db)
  unfolding insert_row
  insert_row-IsSound e payload db h s = record {
    keyed = Keyed-append 0 db.last_seq db.events _ s.keyed refl;
    unique = UniqueIds-append db.events _ s.unique h;
  }

  pub insert_or_ignore-IsSound :
      (e : Event) (payload : String) (t : Tally)
      → IsSound t.db
      → IsSound (insert_or_ignore env agent_id received_at e payload t).db
  unfolding insert_or_ignore
  insert_or_ignore-IsSound e payload t s = elim (Bool-cases (has_event e.event_id t.db.events)) [
    | inl old ↦ rw old s
    | inr new ↦ rw new (insert_row-IsSound e payload t.db new s)
  ]

  pub insert_events-IsSound :
      (io : Io) (i : ℕ) (batch : List Event) (t u : Tally)
      → insert_events env io agent_id received_at i batch t ≡ ok u
      → IsSound t.db
      → IsSound u.db
  unfolding insert_events
  insert_events-IsSound io i [] t u h s = let e : t ≡ u = cc in subst (λ x. IsSound x.db) e s
  insert_events-IsSound io i (e ∷ batch) t u h s =
      let (payload, _, k) = >>=-eq-ok (or_error (env.encode_event e) "encode hub event") _ h in
      let (_, _, m) = >>=-eq-ok (exec io (insert_event i) "persist hub event") _ k in
      insert_events-IsSound io (i + 1) batch (insert_or_ignore env agent_id received_at e payload t)
        u m (insert_or_ignore-IsSound e payload t s)

-- The tally that the loop of `RecordEvents` starts from.
abbrev pub start : {F : Type 0} → HubEnv F → String → Time → Time → Db → Tally
start env agent_id sent_at received_at db = record {
  db = record db { agents = upsert agent_id (merge_agent env sent_at received_at none) db.agents };
  accepted = 0;
  duplicates = 0;
}

module _ {F : Type 0} (env : HubEnv F) (io : Io) (agent_id : String)
    (sent_at received_at : Time) where
  pub record_events_tx_loop :
      (batch : List Event) (db : Db) (u : Tally)
      → record_events_tx env io agent_id sent_at batch received_at db ≡ ok u
      → insert_events env io agent_id received_at 0 batch
          (start env agent_id sent_at received_at db)
        ≡ ok u
  unfolding record_events_tx upsert_agent
  record_events_tx_loop batch db u h = ground arith

  -- `RecordEvents`, whether it succeeds or fails, keeps the log sound: its keys ascend strictly up
  -- to the highest key given, and no event id stands in it twice.
  pub record_events-IsSound :
      (batch : List Event) (db : Db)
      → IsSound db
      → IsSound (record_events env io agent_id sent_at batch received_at db).0
  unfolding record_events
  record_events-IsSound batch db s =
      elim (Result-cases (record_events_tx env io agent_id sent_at batch received_at db)) [
        | inl (u, e) ↦
            rw (e, record_events)
              (insert_events-IsSound env agent_id received_at io 0 batch _ u
                (record_events_tx_loop batch db u e)
                (record { keyed = s.keyed; unique = s.unique }))
        | inr (c, e) ↦ rw (e, record_events) s
      ]
