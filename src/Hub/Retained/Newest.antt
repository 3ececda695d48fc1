-- ===== src/Hub/Retained/Newest.antt =====
-- One batch of a prune: what it did, and that the newest rows stay.
use ai_control_hud.Prelude.{
  ℕ, suc, ◌-◌, ◌≤◌, ◌<◌, ◌≡◌, ◌≢◌, refl, ap, ◌∙◌, subst, String, Bool, List, [], ◌∷◌, ◌++◌, ◌⊎◌,
  inl, inr, length, length-append, length-drop, take, drop, take-append-drop, select, ◌==◌, arith,
  ok, >>=-eq-ok, Bool-cases, str_eq, eq_iff,
}
use ai_control_hud.Hub.Store.{HubRow, Db, Io, exec, of_agent, begin, count_retained}
use ai_control_hud.Hub.Cursor.Suffix.{Ascending, Ascending-select}
use ai_control_hud.Hub.Retention.{Policy, victims, delete_keys, force_through, min_keep, prune_tx}
use ai_control_hud.Hub.Retained.Thresholds.{From-drop, force_through-From, min_keep-From}
use ai_control_hud.Hub.Retained.Victims.{left_by, left_by-tail}
use ai_control_hud.Hub.Retained.Owners.{select-left_by, select-left_by_other}

-- The last k rows.
abbrev pub newest : ℕ → List HubRow → List HubRow
newest k l = drop (length l - k) l

-- The rows of one agent.
abbrev pub rows_of : String → Db → List HubRow
rows_of a db = select (of_agent a) db.events

-- What a batch that deletes did: its thresholds, and the rows it left.
pub record Batch (io : Io) (a cutoff : String) (p : Policy) (db db' : Db) (n : ℕ) : Type 0 where
  pub force : ℕ
  pub keep : ℕ
  pub forced : force_through io p (rows_of a db) ≡ ok force
  pub kept : min_keep io p (rows_of a db) ≡ ok keep
  pub counted : n ≡ length (victims force keep cutoff p.batch_size (rows_of a db))
  pub result : db' ≡ delete_keys (victims force keep cutoff p.batch_size (rows_of a db)) db

module _ (io : Io) (a cutoff : String) (p : Policy) (db db' : Db) (n : ℕ) where
  -- A batch that succeeds found no row of the agent, or made a deletion.
  pub prune_tx-cases :
      prune_tx io a cutoff p db ≡ ok (db', n)
      → ((rows_of a db ≡ []) × (db' ≡ db) × (n ≡ 0)) ⊎ Batch io a cutoff p db db' n
  unfolding prune_tx
  prune_tx-cases h = elim (Bool-cases (length (rows_of a db) == 0)) [
    | inl empty ↦ inl (ground arith, ground arith, ground arith)
    | inr full ↦
        let (_, _, h1) = >>=-eq-ok (exec io begin "begin event retention transaction") _ h in
        let (_, _, h2) = >>=-eq-ok (exec io count_retained "count retained events") _ h1 in
        let (f, hf, h3) = >>=-eq-ok (force_through io p (rows_of a db)) _ (rw full at h2) in
        let (m, hm, h4) = >>=-eq-ok (min_keep io p (rows_of a db)) _ h3 in
        inr (record {
          force = f;
          keep = m;
          forced = hf;
          kept = hm;
          counted = ground arith;
          result = ground arith;
        })
  ]

drop-length-append : (x t : List HubRow) → drop (length x) (x ++ t) ≡ t
drop-length-append [] t = refl
drop-length-append (r ∷ x) t = drop-length-append x t

-- A list that ends in the newest k rows of another has the same newest k.
newest-append :
    (k : ℕ) (l x : List HubRow) → (length l ≤ k → x ≡ []) → newest k (x ++ newest k l) ≡ newest k l
newest-append k l x empty = elim (Bool-cases (length x == 0)) [
  | inl none_before ↦
      let nil : x ≡ [] = ground arith in
      rw nil (
        let zero_drop : length (newest k l) - k ≡ 0 = omega (arith, length-drop (length l - k) l) in
        rw zero_drop refl)
  | inr some_before ↦
      let long : k < length l = ground (arith, empty) in
      let total : length (x ++ newest k l) - k ≡ length x =
        omega (arith, length-append x (newest k l), length-drop (length l - k) l) in
      rw total (drop-length-append x (newest k l))
]

module _ (io : Io) (p : Policy) (cutoff : String) (force keep : ℕ) (l : List HubRow)
    (ordered : p.min_events ≤ p.max_events) (up : Ascending 0 l)
    (hf : force_through io p l ≡ ok force) (hm : min_keep io p l ≡ ok keep) where
  -- A batch deletes only rows that stand before the newest `MinEvents`.
  pub left_by-split :
      left_by (victims force keep cutoff p.batch_size l) l
      ≡ left_by (victims force keep cutoff p.batch_size l) (take (length l - p.min_events) l)
        ++ newest p.min_events l
  left_by-split =
      let j : ℕ = length l - p.min_events in
      let above =
        From-drop (suc force) (length l - p.max_events) j l (omega arith)
          (force_through-From io p l up force hf) in
      rw (take-append-drop j l) at (
        left_by-tail force keep cutoff p.batch_size (take j l) (drop j l) l above
          (min_keep-From io p l up keep hm))

  -- A batch keeps the newest `MinEvents` rows of the agent that it prunes.
  newest-left_by :
      newest p.min_events (left_by (victims force keep cutoff p.batch_size l) l)
      ≡ newest p.min_events l
  newest-left_by =
      ap (newest p.min_events) left_by-split
      ∙ newest-append p.min_events l
          (left_by (victims force keep cutoff p.batch_size l) (take (length l - p.min_events) l))
          (λ few.
            let none_before : length l - p.min_events ≡ 0 = omega arith in rw none_before refl)

module _ (io : Io) (a cutoff : String) (p : Policy) (db db' : Db) (n : ℕ) where
  -- A batch over one agent leaves the rows of another alone.
  pub Batch-others :
      (b : String)
      → a ≢ b
      → Ascending 0 db.events
      → Batch io a cutoff p db db' n
      → rows_of b db' ≡ rows_of b db
  unfolding delete_keys
  Batch-others b differ up d =
      ap (rows_of b) d.result
      ∙ select-left_by_other a b d.force d.keep cutoff p.batch_size 0 db.events differ up

  pub Batch-own :
      Batch io a cutoff p db db' n
      → (force : ℕ) × (keep : ℕ) × (force_through io p (rows_of a db) ≡ ok force)
        × (min_keep io p (rows_of a db) ≡ ok keep)
        × (n ≡ length (victims force keep cutoff p.batch_size (rows_of a db)))
        × (rows_of a db'
            ≡ left_by (victims force keep cutoff p.batch_size (rows_of a db)) (rows_of a db))
  unfolding delete_keys
  Batch-own d = (
    d.force,
    d.keep,
    d.forced,
    d.kept,
    d.counted,
    ap (rows_of a) d.result
        ∙ select-left_by (of_agent a) (victims d.force d.keep cutoff p.batch_size (rows_of a db))
            db.events,
  )

  -- The newest rows of every agent stay.
  pub Batch-newest :
      (b : String)
      → p.min_events ≤ p.max_events
      → Ascending 0 db.events
      → Batch io a cutoff p db db' n
      → newest p.min_events (rows_of b db') ≡ newest p.min_events (rows_of b db)
  Batch-newest b ordered up d = elim (Bool-cases (str_eq a b)) [
    | inl same ↦
        let (f, m, hf, hm, _, rest) = Batch-own d in
        subst
          (λ (c : String). newest p.min_events (rows_of c db') ≡ newest p.min_events (rows_of c db))
          ((eq_iff a b).0 same)
          (ap (newest p.min_events) rest
            ∙ newest-left_by io p cutoff f m (rows_of a db) ordered
                (Ascending-select 0 (of_agent a) db.events up) hf hm)
    | inr other ↦ ap (newest p.min_events) (Batch-others b (λ e. ground (arith, eq_iff a b)) up d)
  ]

  pub Batch-select :
      Batch io a cutoff p db db' n
      → (q : HubRow → Bool) × (db' ≡ record db { events = select q db.events })
  unfolding delete_keys
  Batch-select d = (_, d.result)
