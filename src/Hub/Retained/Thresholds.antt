-- ===== src/Hub/Retained/Thresholds.antt =====
-- The two thresholds of a batch, as positions in the agent's rows.
use ai_control_hud.Prelude.{
  ℕ, zero, suc, ◌-◌, ◌≤◌, ◌≡◌, refl, sym, ap, subst, some, List, [], ◌∷◌, ◌++◌, length, drop, ltb,
  ◌==◌, arith, ok, Bool-cases, inl, inr,
}
use ai_control_hud.Hub.Store.{HubRow, Io}
use ai_control_hud.Hub.Cursor.Suffix.{Ascending}
use ai_control_hud.Hub.Retention.{Policy, seq_at, force_through, min_keep}

-- Every row's key is at least `a`.
abbrev pub From : ℕ → List HubRow → Type 0
From a [] = Unit {0}
From a (x ∷ l) = (a ≤ x.seq) × From a l

pub From-drop : (a i j : ℕ) (l : List HubRow) → i ≤ j → From a (drop i l) → From a (drop j l)
From-drop a zero zero l h f = f
From-drop a zero (suc j) [] h f = tt
From-drop a zero (suc j) (x ∷ l) h f = From-drop a zero j l (omega arith) f.1
From-drop a (suc i) zero l h f = absurd (omega arith)
From-drop a (suc i) (suc j) [] h f = tt
From-drop a (suc i) (suc j) (x ∷ l) h f = From-drop a i j l (omega arith) f

pub From-tail :
    (a j : ℕ) (pre l : List HubRow) → j ≤ length pre → From a (drop j (pre ++ l)) → From a l
From-tail a zero [] l h f = f
From-tail a zero (x ∷ pre) l h f = From-tail a zero pre l (omega arith) f.1
From-tail a (suc j) [] l h f = absurd (omega arith)
From-tail a (suc j) (x ∷ pre) l h f = From-tail a j pre l (omega arith) f

From-lower : (a b : ℕ) (l : List HubRow) → a ≤ b → From b l → From a l
From-lower a b [] h f = tt
From-lower a b (x ∷ l) h f = (omega arith, From-lower a b l h f.1)

pub Ascending-From : (lo : ℕ) (l : List HubRow) → Ascending lo l → From (suc lo) l
Ascending-From lo [] a = tt
Ascending-From lo (r ∷ l) a =
    (omega arith, From-lower (suc lo) (suc r.seq) l (omega arith) (Ascending-From r.seq l a.1))

above_at :
    (lo k s : ℕ) (l : List HubRow)
    → Ascending lo l
    → seq_at l k ≡ some s
    → From (suc s) (drop (suc k) l)
above_at lo k s [] a h = cc
above_at lo zero s (r ∷ l) a h =
    let e : r.seq ≡ s = ground arith in
    From-lower (suc s) (suc r.seq) l (omega arith) (Ascending-From r.seq l a.1)
above_at lo (suc k) s (r ∷ l) a h = above_at r.seq k s l a.1 h

From-at : (lo k s : ℕ) (l : List HubRow) → Ascending lo l → seq_at l k ≡ some s → From s (drop k l)
From-at lo k s [] a h = cc
From-at lo zero s (r ∷ l) a h =
    let e : r.seq ≡ s = ground arith in
    (omega arith, From-lower s (suc r.seq) l (omega arith) (Ascending-From r.seq l a.1))
From-at lo (suc k) s (r ∷ l) a h = From-at r.seq k s l a.1 h

module _ (io : Io) (p : Policy) (l : List HubRow) (up : Ascending 0 l) where
  -- The rows after the forced ones lie above the first threshold.
  pub force_through-From :
      (f : ℕ) → force_through io p l ≡ ok f → From (suc f) (drop (length l - p.max_events) l)
  unfolding force_through
  force_through-From f h = elim (Bool-cases (ltb p.max_events (length l))) [
    | inl many ↦
        let at : seq_at l (length l - p.max_events - 1) ≡ some f = ground arith in
        let next : suc (length l - p.max_events - 1) ≡ length l - p.max_events = ground arith in
        subst (λ k. From (suc f) (drop k l)) next (above_at 0 _ f l up at)
    | inr few ↦
        let none_forced : f ≡ 0 = ground arith in
        From-drop (suc f) 0 (length l - p.max_events) l (omega arith)
          (From-lower (suc f) 1 l (omega arith) (Ascending-From 0 l up))
  ]

  pub drop_all : (k : ℕ) (m : List HubRow) → length m ≤ k → drop k m ≡ []
  drop_all zero [] h = refl
  drop_all zero (x ∷ m) h = absurd (omega arith)
  drop_all (suc k) [] h = refl
  drop_all (suc k) (x ∷ m) h = drop_all k m (omega arith)

  -- The newest rows lie at or above the second.
  pub min_keep-From : (m : ℕ) → min_keep io p l ≡ ok m → From m (drop (length l - p.min_events) l)
  unfolding min_keep
  min_keep-From m h = elim (Bool-cases (p.min_events == 0)) [
    | inl all ↦ subst (From m) (sym (drop_all (length l - p.min_events) l (ground arith))) tt
    | inr some_kept ↦ elim (Bool-cases (ltb p.min_events (length l))) [
      | inl many ↦
          let index : length l - 1 - (p.min_events - 1) ≡ length l - p.min_events = ground arith in
          let at : seq_at l (length l - p.min_events) ≡ some m =
            ground (arith, ap (seq_at l) index) in
          From-at 0 _ m l up at
      | inr few ↦
          let none_old : m ≡ 0 = ground arith in
          From-drop m 0 (length l - p.min_events) l (omega arith)
            (From-lower m 1 l (omega arith) (Ascending-From 0 l up))
    ]
  ]
