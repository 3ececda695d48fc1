-- ===== src/Hub/Retained/Owners.antt =====
-- A batch that prunes one agent's rows deletes rows of that agent alone.
use ai_control_hud.Prelude.{
  ℕ, zero, suc, ◌≡◌, ◌≢◌, refl, String, true, false, List, [], ◌∷◌, All, map, select, take, eq_iff,
  arith, Bool, Bool-cases, inl, inr,
}
use ai_control_hud.Hub.Store.{HubRow, of_agent}
use ai_control_hud.Hub.Cursor.Suffix.{Ascending, Ascending-select}
use ai_control_hud.Hub.Retention.{seq_of, is_doomed, victims, is_among}
use ai_control_hud.Hub.Retained.Thresholds.{From, Ascending-From}
use ai_control_hud.Hub.Retained.Victims.{left_by}

above-fresh :
    (r : HubRow) (l : List HubRow) → From (suc r.seq) l → is_among (map seq_of l) r ≡ false
above-fresh r [] f = refl
above-fresh r (x ∷ l) f = ground (arith, above-fresh r l f.1)

-- No row of `l` has one of the keys.
abbrev pub Fresh : List ℕ → List HubRow → Type 0
Fresh ks l = All (λ (r : HubRow). is_among ks r ≡ false) l

Fresh-cons :
    (k : ℕ) (ks : List ℕ) (l : List HubRow) → From (suc k) l → Fresh ks l → Fresh (k ∷ ks) l
Fresh-cons k ks [] f h = tt
Fresh-cons k ks (r ∷ l) f h = (ground arith, Fresh-cons k ks l f.1 h.1)

other_agent : (a b : String) (r : HubRow) → a ≢ b → of_agent a r ≡ true → of_agent b r ≡ false
other_agent a b r h e = ground (arith, eq_iff r.agent_id a, eq_iff r.agent_id b)

module _ (a b : String) (differ : a ≢ b) where
  Fresh-select :
      (lo : ℕ) (l : List HubRow)
      → Ascending lo l
      → Fresh (map seq_of (select (of_agent a) l)) (select (of_agent b) l)
  Fresh-select lo [] up = tt
  Fresh-select lo (r ∷ l) up = elim (Bool-cases (of_agent a r)) [
    | inl own ↦
        rw (own, other_agent a b r differ own)
          (Fresh-cons r.seq (map seq_of (select (of_agent a) l)) (select (of_agent b) l)
            (Ascending-From r.seq (select (of_agent b) l)
              (Ascending-select r.seq (of_agent b) l up.1))
            (Fresh-select r.seq l up.1))
    | inr foreign ↦ elim (Bool-cases (of_agent b r)) [
      | inl theirs ↦
          rw (foreign, theirs)
            (
              above-fresh r (select (of_agent a) l) (
                  Ascending-From r.seq (select (of_agent a) l)
                    (Ascending-select r.seq (of_agent a) l up.1)),
              Fresh-select r.seq l up.1,
            )
      | inr third ↦ rw (foreign, third) (Fresh-select r.seq l up.1)
    ]
  ]

among-take :
    (n : ℕ) (r : HubRow) (l : List HubRow)
    → is_among (map seq_of l) r ≡ false
    → is_among (map seq_of (take n l)) r ≡ false
among-take zero r l h = refl
among-take (suc n) r [] h = refl
among-take (suc n) r (x ∷ l) h = ground (arith, among-take n r l)

among-select :
    (p : HubRow → Bool) (r : HubRow) (l : List HubRow)
    → is_among (map seq_of l) r ≡ false
    → is_among (map seq_of (select p l)) r ≡ false
among-select p r [] h = refl
among-select p r (x ∷ l) h = ground (arith, among-select p r l)

module _ (force keep : ℕ) (cutoff : String) (n : ℕ) where
  -- Rows that have none of the keys of a list are left by a batch over that list.
  pub left_by-Fresh :
      (all l : List HubRow)
      → Fresh (map seq_of all) l
      → left_by (victims force keep cutoff n all) l ≡ l
  unfolding victims
  left_by-Fresh all [] h = refl
  left_by-Fresh all (r ∷ l) h =
      let gone =
        among-take n r (select (is_doomed force keep cutoff) all)
          (among-select (is_doomed force keep cutoff) r all h.0) in
      ground (arith, gone, left_by-Fresh all l h.1)

pub select-left_by :
    (p : HubRow → Bool) (ks : List ℕ) (l : List HubRow)
    → select p (left_by ks l) ≡ left_by ks (select p l)
select-left_by p ks [] = refl
select-left_by p ks (r ∷ l) = ground (arith, select-left_by p ks l)

-- The rows of another agent stay as they are.
pub select-left_by_other :
    (a b : String) (force keep : ℕ) (cutoff : String) (n lo : ℕ) (l : List HubRow)
    → a ≢ b
    → Ascending lo l
    → select (of_agent b) (left_by (victims force keep cutoff n (select (of_agent a) l)) l)
      ≡ select (of_agent b) l
select-left_by_other a b force keep cutoff n lo l differ up =
    rw (select-left_by (of_agent b) (victims force keep cutoff n (select (of_agent a) l)) l) (
      left_by-Fresh force keep cutoff n (select (of_agent a) l) (select (of_agent b) l)
        (Fresh-select a b differ lo l up))
