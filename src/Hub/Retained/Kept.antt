-- ===== src/Hub/Retained/Kept.antt =====
-- One round of `PruneEvents`, seen from the whole log.
use ai_control_hud.Prelude.{
  ℕ, ◌+◌, ◌^◌, ◌≤◌, ◌<◌, ◌-◌, ◌≡◌, ◌≢◌, refl, sym, ap, ◌∙◌, subst, String, Bool, false, List, [],
  ◌∷◌, ◌⊎◌, inl, inr, select, arith, ok, err, Error, message, Bool-cases, Result-cases,
}
use ai_control_hud.Hub.Store.{HubRow, Db, Io, context_alive, has_event, of_agent}
use ai_control_hud.Hub.Log.Sound.{Keyed, UniqueIds, IsSound}
use ai_control_hud.Hub.Cursor.Suffix.{Ascending-select, Keyed-Ascending}
use ai_control_hud.Hub.Retention.{Policy, Pruned, round, prune_agent_batch, prune_tx}
use ai_control_hud.Hub.Retained.Newest.{
  newest, rows_of, prune_tx-cases, Batch-others, Batch-own, Batch-newest, Batch-select,
}
use ai_control_hud.Hub.Retained.Settled.{IsPruned, IsPruned-nil, KeysFit, last-IsPruned}

Keyed-lower : (a b hi : ℕ) (l : List HubRow) → a ≤ b → Keyed b l hi → Keyed a l hi
Keyed-lower a b hi [] h k = omega arith
Keyed-lower a b hi (r ∷ l) h k = (omega arith, k.1)

Keyed-select :
    (lo hi : ℕ) (q : HubRow → Bool) (l : List HubRow) → Keyed lo l hi → Keyed lo (select q l) hi
Keyed-select lo hi q [] k = k
Keyed-select lo hi q (r ∷ l) k = elim (Bool-cases (q r)) [
  | inl h ↦ rw h (k.0, Keyed-select r.seq hi q l k.1)
  | inr h ↦ rw h (Keyed-select lo hi q l (Keyed-lower lo r.seq hi l (omega arith) k.1))
]

has_event-select :
    (id : String) (q : HubRow → Bool) (l : List HubRow)
    → has_event id l ≡ false
    → has_event id (select q l) ≡ false
has_event-select id q [] h = refl
has_event-select id q (r ∷ l) h = ground (arith, has_event-select id q l)

UniqueIds-select : (q : HubRow → Bool) (l : List HubRow) → UniqueIds l → UniqueIds (select q l)
UniqueIds-select q [] u = tt
UniqueIds-select q (r ∷ l) u = elim (Bool-cases (q r)) [
  | inl h ↦ rw h (has_event-select r.event_id q l u.0, UniqueIds-select q l u.1)
  | inr h ↦ rw h (UniqueIds-select q l u.1)
]

Keyed-le : (lo hi : ℕ) (l : List HubRow) → Keyed lo l hi → lo ≤ hi
Keyed-le lo hi [] k = k
Keyed-le lo hi (r ∷ l) k = omega (arith, Keyed-le r.seq hi l k.1)

Keyed-KeysFit :
    (lo hi : ℕ) (q : HubRow → Bool) (l : List HubRow)
    → hi < 2 ^ 63 - 1
    → Keyed lo l hi
    → KeysFit (select q l)
Keyed-KeysFit lo hi q [] h k = tt
Keyed-KeysFit lo hi q (r ∷ l) h k = elim (Bool-cases (q r)) [
  | inl e ↦ rw e (omega (arith, Keyed-le r.seq hi l k.1), Keyed-KeysFit r.seq hi q l h k.1)
  | inr e ↦ rw e (Keyed-KeysFit r.seq hi q l h k.1)
]

-- The log stays sound, no key is given, and every agent keeps its newest `MinEvents` rows.
pub record Kept (p : Policy) (x y : Db) : Type 0 where
  pub sound : IsSound y
  pub counter : y.last_seq ≡ x.last_seq
  pub newest_rows :
      (b : String) → newest p.min_events (rows_of b y) ≡ newest p.min_events (rows_of b x)

pub Kept-refl : (p : Policy) (x : Db) → IsSound x → Kept p x x
Kept-refl p x s = record { sound = s; counter = refl; newest_rows = λ b. refl }

pub Kept-trans : (p : Policy) (x y z : Db) → Kept p x y → Kept p y z → Kept p x z
Kept-trans p x y z h k = record {
  sound = k.sound;
  counter = k.counter ∙ h.counter;
  newest_rows = λ b. k.newest_rows b ∙ h.newest_rows b;
}

-- A round does nothing and fails, or it runs the transaction of a batch.
pub round-cases :
    (io : Io) (a cutoff : String) (p : Policy) (s : Pruned)
    → ((e : Error) × (round io a cutoff p s ≡ (s, err e)))
      ⊎ ((db' : Db) × (n : ℕ) × (prune_tx io a cutoff p s.db ≡ ok (db', n))
          × (round io a cutoff p s ≡ (record s { db = db'; deleted = s.deleted + n }, ok n)))
unfolding round prune_agent_batch
round-cases io a cutoff p s = elim (Bool-cases (io context_alive)) [
  | inr over ↦ inl (message "context canceled", rw over refl)
  | inl alive ↦ elim (Result-cases (prune_tx io a cutoff p s.db)) [
    | inl ((db', n), e) ↦ inr (db', n, e, ground arith)
    | inr (e, h) ↦ inl (e, ground arith)
  ]
]

module _ (io : Io) (a cutoff : String) (p : Policy) (db db' : Db) (n : ℕ)
    (ordered : p.min_events ≤ p.max_events) (s : IsSound db)
    (h : prune_tx io a cutoff p db ≡ ok (db', n)) where
  pub batch-Kept : Kept p db db'
  batch-Kept = elim (prune_tx-cases io a cutoff p db db' n h) [
    | inl (_, same, _) ↦ subst (Kept p db) (sym same) (Kept-refl p db s)
    | inr d ↦
        let (q, e) = Batch-select io a cutoff p db db' n d in
        record {
          sound = subst IsSound (sym e) (record {
            keyed = Keyed-select 0 db.last_seq q db.events s.keyed;
            unique = UniqueIds-select q db.events s.unique;
          });
          counter = ap (λ (x : Db). x.last_seq) e;
          newest_rows = λ b.
              Batch-newest io a cutoff p db db' n b ordered
                (Keyed-Ascending 0 db.last_seq db.events s.keyed) d;
        }
  ]

  pub batch-others : (b : String) → a ≢ b → rows_of b db' ≡ rows_of b db
  batch-others b differ = elim (prune_tx-cases io a cutoff p db db' n h) [
    | inl (_, same, _) ↦ ap (rows_of b) same
    | inr d ↦
        Batch-others io a cutoff p db db' n b differ
          (Keyed-Ascending 0 db.last_seq db.events s.keyed) d
  ]

  pub batch-IsPruned :
      db.last_seq < 2 ^ 63 - 1 → n < p.batch_size → IsPruned p cutoff (rows_of a db')
  batch-IsPruned fits few = elim (prune_tx-cases io a cutoff p db db' n h) [
    | inl (none_there, same, _) ↦
        subst (IsPruned p cutoff) (sym (ap (rows_of a) same ∙ none_there)) (IsPruned-nil p cutoff)
    | inr d ↦
        let (f, m, hf, hm, count, rest) = Batch-own io a cutoff p db db' n d in
        let up = Keyed-Ascending 0 db.last_seq db.events s.keyed in
        subst (IsPruned p cutoff) (sym rest) (
          last-IsPruned io p cutoff f m (rows_of a db) ordered
            (Ascending-select 0 (of_agent a) db.events up)
            (Keyed-KeysFit 0 db.last_seq (of_agent a) db.events fits s.keyed) hf hm
            (omega (arith, count)))
  ]
