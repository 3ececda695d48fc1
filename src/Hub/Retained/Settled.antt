-- ===== src/Hub/Retained/Settled.antt =====
-- What the last batch of an agent leaves: no more than `MaxEvents` rows, and no old row before the
-- newest `MinEvents`.
use ai_control_hud.Prelude.{
  ℕ, zero, suc, ◌-◌, ◌^◌, ◌≤◌, ◌<◌, ◌≡◌, refl, sym, ap, ◌∙◌, subst, String, Bool, List, [], ◌∷◌,
  ◌++◌, inl, inr, length, length-append, length-drop, take, drop, All, select, ltb, ◌==◌, arith, ok,
  some, Bool-cases,
}
use ai_control_hud.Hub.Store.{HubRow, Io, text_ltb}
use ai_control_hud.Hub.Cursor.Suffix.{Ascending, last_key, beyond, beyond-last_key}
use ai_control_hud.Hub.Retention.{Policy, seq_at, victims, is_doomed, force_through, min_keep}
use ai_control_hud.Hub.Retained.Victims.{left_by, left_by-length, exhausted}
use ai_control_hud.Hub.Retained.Owners.{select-left_by}
use ai_control_hud.Hub.Retained.Newest.{newest, left_by-split}

-- Received before the cutoff, as the DELETE compares texts.
abbrev pub is_old : String → HubRow → Bool
is_old cutoff r = text_ltb r.received_at cutoff

pub record IsPruned (p : Policy) (cutoff : String) (l : List HubRow) : Type 0 where
  pub within : length l ≤ p.max_events
  pub fresh : select (is_old cutoff) (take (length l - p.min_events) l) ≡ []

take_nil : (k : ℕ) → take {A = HubRow} k [] ≡ []
take_nil zero = refl
take_nil (suc k) = refl

pub IsPruned-nil : (p : Policy) (cutoff : String) → IsPruned p cutoff []
IsPruned-nil p cutoff = record {
  within = omega arith;
  fresh = ap (select (is_old cutoff)) (take_nil (0 - p.min_events));
}

take-length-append : (x t : List HubRow) → take (length x) (x ++ t) ≡ x
take-length-append [] t = refl
take-length-append (r ∷ x) t = ap (λ y. r ∷ y) (take-length-append x t)

-- What stands before the newest k rows, where a list ends in those.
take_older :
    (k : ℕ) (l x : List HubRow)
    → (length l ≤ k → x ≡ [])
    → take (length (x ++ newest k l) - k) (x ++ newest k l) ≡ x
take_older k l x empty = elim (Bool-cases (length x == 0)) [
  | inl none_before ↦
      let nil : x ≡ [] = ground arith in
      rw nil (
        let zero_take : length (newest k l) - k ≡ 0 = omega (arith, length-drop (length l - k) l) in
        rw zero_take refl)
  | inr some_before ↦
      let long : k < length l = ground (arith, empty) in
      let total : length (x ++ newest k l) - k ≡ length x =
        omega (arith, length-append x (newest k l), length-drop (length l - k) l) in
      rw total (take-length-append x (newest k l))
]

last_key-seq_at :
    (lo k s : ℕ) (l : List HubRow) → seq_at l k ≡ some s → last_key lo (take (suc k) l) ≡ s
last_key-seq_at lo k s [] h = cc
last_key-seq_at lo zero s (r ∷ l) h = ground arith
last_key-seq_at lo (suc k) s (r ∷ l) h = last_key-seq_at r.seq k s l h

nil-select : (p : HubRow → Bool) (x y : List HubRow) → select p (x ++ y) ≡ [] → select p x ≡ []
nil-select p [] y h = refl
nil-select p (r ∷ x) y h = ground (arith, nil-select p x y)

-- Rows of which none is doomed lie past the first threshold.
undoomed_beyond :
    (f m : ℕ) (cutoff : String) (l : List HubRow)
    → 0 < f
    → select (is_doomed f m cutoff) l ≡ []
    → select (beyond f) l ≡ l
unfolding is_doomed
undoomed_beyond f m cutoff [] pos_f h = refl
undoomed_beyond f m cutoff (r ∷ l) pos_f h = ground (arith, undoomed_beyond f m cutoff l)

Under : ℕ → List HubRow → Type 0
Under m l = All (λ (r : HubRow). r.seq < m) l

Under-select : (m : ℕ) (q : HubRow → Bool) (l : List HubRow) → Under m l → Under m (select q l)
unfolding Under
Under-select m q [] u = tt
Under-select m q (r ∷ l) u = elim (Bool-cases (q r)) [
  | inl h ↦ rw h (u.0, Under-select m q l u.1)
  | inr h ↦ rw h (Under-select m q l u.1)
]

Under-take :
    (lo k s : ℕ) (l : List HubRow)
    → Ascending lo l
    → seq_at l k ≡ some s
    → Under s (take k l) × (lo < s)
unfolding Under
Under-take lo k s [] up h = cc
Under-take lo zero s (r ∷ l) up h = (tt, ground arith)
Under-take lo (suc k) s (r ∷ l) up h =
    let (u, past) = Under-take r.seq k s l up.1 h in ((past, u), omega arith)

-- Rows below the second threshold, of which none is doomed, are not old.
undoomed_fresh :
    (f m : ℕ) (cutoff : String) (l : List HubRow)
    → Under m l
    → select (is_doomed f m cutoff) l ≡ []
    → select (is_old cutoff) l ≡ []
unfolding is_doomed Under
undoomed_fresh f m cutoff [] u h = refl
undoomed_fresh f m cutoff (r ∷ l) u h = ground (arith, undoomed_fresh f m cutoff l)

Under-below : (hi : ℕ) (k : ℕ) (l : List HubRow) → Under hi l → Under hi (take k l)
unfolding Under
Under-below hi zero l u = tt
Under-below hi (suc k) [] u = tt
Under-below hi (suc k) (r ∷ l) u = (u.0, Under-below hi k l u.1)

-- Every key fits SQLite's: it is below the largest.
abbrev pub KeysFit : List HubRow → Type 0
KeysFit l = All (λ (r : HubRow). r.seq < 2 ^ 63 - 1) l

module _ (io : Io) (p : Policy) (cutoff : String) (f m : ℕ) (ks : List ℕ) (l : List HubRow)
    (up : Ascending 0 l) (fits : KeysFit l) (hf : force_through io p l ≡ ok f)
    (hm : min_keep io p l ≡ ok m) (done : select (is_doomed f m cutoff) (left_by ks l) ≡ []) where
  pub within_maximum : length (left_by ks l) ≤ p.max_events
  unfolding force_through
  within_maximum = elim (Bool-cases (ltb p.max_events (length l))) [
    | inr few ↦ ground (arith, left_by-length ks l)
    | inl many ↦
        let k : ℕ = length l - p.max_events - 1 in
        let at : seq_at l k ≡ some f = ground arith in
        let index : suc k ≡ length l - p.max_events = ground arith in
        let key : last_key 0 (take (suc k) l) ≡ f = last_key-seq_at 0 k f l at in
        let tail : select (beyond f) l ≡ drop (length l - p.max_events) l =
          rw (key, index) at (beyond-last_key 0 (suc k) l up) in
        let all_past =
          undoomed_beyond f m cutoff (left_by ks l) (Under-take 0 k f l up at).1 done in
        let same : left_by ks l ≡ left_by ks (drop (length l - p.max_events) l) =
          sym all_past ∙ select-left_by (beyond f) ks l ∙ ap (left_by ks) tail in
        omega (
          arith,
          ap length same,
          left_by-length ks (drop (length l - p.max_events) l),
          length-drop (length l - p.max_events) l,
        )
  ]

  older-Under : Under m (take (length l - p.min_events) l)
  unfolding min_keep Under
  older-Under = elim (Bool-cases (p.min_events == 0)) [
    | inl all ↦
        let top : m ≡ 2 ^ 63 - 1 = ground arith in
        subst (λ (t : ℕ). Under t (take (length l - p.min_events) l)) (sym top)
          (Under-below (2 ^ 63 - 1) (length l - p.min_events) l fits)
    | inr some_kept ↦ elim (Bool-cases (ltb p.min_events (length l))) [
      | inl many ↦
          let index : length l - 1 - (p.min_events - 1) ≡ length l - p.min_events = ground arith in
          let at : seq_at l (length l - p.min_events) ≡ some m =
            ground (arith, ap (seq_at l) index) in
          (Under-take 0 (length l - p.min_events) m l up at).0
      | inr few ↦ let none_before : length l - p.min_events ≡ 0 = ground arith in rw none_before tt
    ]
  ]

  -- The rows before the newest `MinEvents`, after a batch that leaves those alone.
  pub older_fresh :
      left_by ks l ≡ left_by ks (take (length l - p.min_events) l) ++ newest p.min_events l
      → select (is_old cutoff) (take (length (left_by ks l) - p.min_events) (left_by ks l)) ≡ []
  older_fresh whole =
      let x : List HubRow = left_by ks (take (length l - p.min_events) l) in
      let clear : select (is_doomed f m cutoff) x ≡ [] =
        nil-select (is_doomed f m cutoff) x (newest p.min_events l) (rw whole at done) in
      let quiet = undoomed_fresh f m cutoff x (Under-select m _ _ older-Under) clear in
      rw whole (
        rw
          (take_older p.min_events l x (λ few.
            let none_before : length l - p.min_events ≡ 0 = omega arith in rw none_before refl))
          quiet)

-- A batch that deletes fewer rows than it may leaves the agent's rows pruned.
pub last-IsPruned :
    (io : Io) (p : Policy) (cutoff : String) (f m : ℕ) (l : List HubRow)
    → p.min_events ≤ p.max_events
    → Ascending 0 l
    → KeysFit l
    → force_through io p l ≡ ok f
    → min_keep io p l ≡ ok m
    → length (victims f m cutoff p.batch_size l) < p.batch_size
    → IsPruned p cutoff (left_by (victims f m cutoff p.batch_size l) l)
last-IsPruned io p cutoff f m l ordered up fits hf hm few =
    let ks : List ℕ = victims f m cutoff p.batch_size l in
    let done = exhausted f m cutoff p.batch_size l few in
    record {
      within = within_maximum io p cutoff f m ks l up fits hf hm done;
      fresh =
          older_fresh io p cutoff f m ks l up fits hf hm done
            (left_by-split io p cutoff f m l ordered up hf hm);
    }
