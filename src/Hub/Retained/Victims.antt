-- ===== src/Hub/Retained/Victims.antt =====
-- The rows that one batch deletes.
use mathlib.Core.List.{append_assoc}
use ai_control_hud.Prelude.{
  ℕ, zero, suc, ◌≤◌, ◌<◌, ◌≡◌, refl, sym, ap, ◌∙◌, subst, String, Bool, true, false, not, ◌||◌,
  List, [], ◌∷◌, ◌++◌, any, any-append, map, select, select-append, select-cons_true,
  select-cons_false, take, length, ltb, leb, ◌==◌, arith, Bool-cases, inl, inr,
}
use ai_control_hud.Hub.Store.{HubRow}
use ai_control_hud.Hub.Retention.{seq_of, is_doomed, victims, is_among}
use ai_control_hud.Hub.Retained.Thresholds.{From}

-- The rows that a deletion leaves.
abbrev pub left_by : List ℕ → List HubRow → List HubRow
left_by keys l = select (λ r. not (is_among keys r)) l

abbrev pub below : ℕ → ℕ → ℕ → Bool
below f m k = leb k f || ltb k m

-- Every key lies below one of the two thresholds.
abbrev pub Below : ℕ → ℕ → List ℕ → Type 0
Below f m [] = Unit {0}
Below f m (k ∷ ks) = (below f m k ≡ true) × Below f m ks

module _ (f m : ℕ) (cutoff : String) where
  doomed-below : (r : HubRow) → is_doomed f m cutoff r ≡ true → below f m r.seq ≡ true
  unfolding is_doomed
  doomed-below r h = ground arith

  victims-Below :
      (n : ℕ) (l : List HubRow) → Below f m (map seq_of (take n (select (is_doomed f m cutoff) l)))
  victims-Below zero l = tt
  victims-Below (suc n) [] = tt
  victims-Below (suc n) (r ∷ l) = elim (Bool-cases (is_doomed f m cutoff r)) [
    | inl yes_doomed ↦ rw yes_doomed (doomed-below r yes_doomed, victims-Below n l)
    | inr spared ↦ rw spared (victims-Below (suc n) l)
  ]

  among-below :
      (ks : List ℕ) (r : HubRow) → Below f m ks → is_among ks r ≡ true → below f m r.seq ≡ true
  among-below [] r b h = cc
  among-below (k ∷ ks) r b h = ground (arith, among-below ks r)

  spared :
      (ks : List ℕ) (l : List HubRow) → Below f m ks → From (suc f) l → From m l → left_by ks l ≡ l
  spared ks [] b hf hm = refl
  spared ks (r ∷ l) b hf hm = ground (arith, among-below ks r b, spared ks l b hf.1 hm.1)

  -- A batch keeps every tail of the rows that lies above both thresholds.
  pub left_by-tail :
      (n : ℕ) (pre l all : List HubRow)
      → From (suc f) l
      → From m l
      → left_by (victims f m cutoff n all) (pre ++ l) ≡ left_by (victims f m cutoff n all) pre ++ l
  unfolding victims
  left_by-tail n pre l all hf hm =
      let ks = map seq_of (take n (select (is_doomed f m cutoff) all)) in
      select-append (λ r. not (is_among ks r)) pre l
      ∙ ap (λ t. left_by ks pre ++ t) (spared ks l (victims-Below n all) hf hm)

-- A deletion leaves no more rows than there were, and fewer if one of the rows is among its keys.
pub left_by-length : (ks : List ℕ) (l : List HubRow) → length (left_by ks l) ≤ length l
left_by-length ks [] = omega arith
left_by-length ks (r ∷ l) = ground (arith, left_by-length ks l)

pub left_by_fewer :
    (ks : List ℕ) (l : List HubRow) → any (is_among ks) l ≡ true → length (left_by ks l) < length l
left_by_fewer ks [] h = cc
left_by_fewer ks (r ∷ l) h = ground (arith, left_by-length ks l, left_by_fewer ks l)

module _ (f m : ℕ) (cutoff : String) where
  -- A batch that deletes anything deletes one of the rows that it looked at.
  pub first_victim :
      (n : ℕ) (l : List HubRow)
      → 0 < length (map seq_of (take n (select (is_doomed f m cutoff) l)))
      → any (is_among (map seq_of (take n (select (is_doomed f m cutoff) l)))) l ≡ true
  first_victim zero l h = absurd (omega arith)
  first_victim (suc n) [] h = absurd (omega arith)
  first_victim (suc n) (r ∷ l) h = elim (Bool-cases (is_doomed f m cutoff r)) [
    | inl doomed ↦
        subst (λ (t : List HubRow). any (is_among (map seq_of (take (suc n) t))) (r ∷ l) ≡ true)
          (sym (select-cons_true (is_doomed f m cutoff) r l doomed)) (ground arith)
    | inr safe ↦
        let same = select-cons_false (is_doomed f m cutoff) r l safe in
        subst (λ (t : List HubRow). any (is_among (map seq_of (take (suc n) t))) (r ∷ l) ≡ true)
          (sym same)
          (ground (
            arith,
            first_victim (suc n) l
                (subst (λ (t : List HubRow). 0 < length (map seq_of (take (suc n) t))) same h),
          ))
  ]

  take_all : (n : ℕ) (l : List HubRow) → length (map seq_of (take n l)) < n → take n l ≡ l
  take_all zero l h = absurd (omega arith)
  take_all (suc n) [] h = refl
  take_all (suc n) (r ∷ l) h = ap (λ t. r ∷ t) (take_all n l (omega arith))

  among_later : (pre ks : List ℕ) (r : HubRow) → is_among (pre ++ r.seq ∷ ks) r ≡ true
  among_later pre ks r = ground (arith, any-append (λ k. k == r.seq) pre (r.seq ∷ ks))

  skip :
      (ks : List ℕ) (r : HubRow) (l : List HubRow)
      → is_among ks r ≡ true
      → select (is_doomed f m cutoff) (left_by ks l) ≡ []
      → select (is_doomed f m cutoff) (left_by ks (r ∷ l)) ≡ []
  skip ks r l h e = ground arith

  pass :
      (ks : List ℕ) (r : HubRow) (l : List HubRow)
      → is_doomed f m cutoff r ≡ false
      → select (is_doomed f m cutoff) (left_by ks l) ≡ []
      → select (is_doomed f m cutoff) (left_by ks (r ∷ l)) ≡ []
  pass ks r l h e = ground arith

  none_doomed :
      (pre : List ℕ) (l : List HubRow)
      → select
          (is_doomed f m cutoff)
          (left_by (pre ++ map seq_of (select (is_doomed f m cutoff) l)) l)
        ≡ []
  none_doomed pre [] = refl
  none_doomed pre (r ∷ l) = elim (Bool-cases (is_doomed f m cutoff r)) [
    | inl doomed ↦
        subst
          (λ (t : List HubRow).
            select (is_doomed f m cutoff) (left_by (pre ++ map seq_of t) (r ∷ l)) ≡ [])
          (sym (select-cons_true (is_doomed f m cutoff) r l doomed))
          (skip (pre ++ r.seq ∷ map seq_of (select (is_doomed f m cutoff) l)) r l
            (among_later pre (map seq_of (select (is_doomed f m cutoff) l)) r)
            (subst (λ ks. select (is_doomed f m cutoff) (left_by ks l) ≡ [])
              (append_assoc pre (r.seq ∷ []) (map seq_of (select (is_doomed f m cutoff) l)))
              (none_doomed (pre ++ r.seq ∷ []) l)))
    | inr safe ↦
        subst
          (λ (t : List HubRow).
            select (is_doomed f m cutoff) (left_by (pre ++ map seq_of t) (r ∷ l)) ≡ [])
          (sym (select-cons_false (is_doomed f m cutoff) r l safe))
          (pass (pre ++ map seq_of (select (is_doomed f m cutoff) l)) r l safe (none_doomed pre l))
  ]

  -- A batch that deletes fewer rows than it may leaves none to delete.
  pub exhausted :
      (n : ℕ) (l : List HubRow)
      → length (victims f m cutoff n l) < n
      → select (is_doomed f m cutoff) (left_by (victims f m cutoff n l) l) ≡ []
  unfolding victims
  exhausted n l h =
      let whole = take_all n (select (is_doomed f m cutoff) l) h in
      subst (λ (t : List HubRow). select (is_doomed f m cutoff) (left_by (map seq_of t) l) ≡ [])
        (sym whole) (none_doomed [] l)
