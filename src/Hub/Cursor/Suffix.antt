-- ===== src/Hub/Cursor/Suffix.antt =====
-- In a list of rows with ascending keys, the rows past a key are a suffix.
use ai_control_hud.Prelude.{
  ℕ, zero, suc, ◌≤◌, ◌<◌, ◌≡◌, refl, ◌∙◌, sym, String, Bool, List, [], ◌∷◌, select, take, drop, ltb,
  arith, Bool-cases, inl, inr,
}
use ai_control_hud.Hub.Store.{HubRow, of_agent, past}
use ai_control_hud.Hub.Log.Sound.{Keyed}

abbrev pub Ascending : ℕ → List HubRow → Type 0
Ascending lo [] = Unit {0}
Ascending lo (r ∷ rs) = (lo < r.seq) × Ascending r.seq rs

-- The key of the last row, or `a` if there is none.
abbrev pub last_key : ℕ → List HubRow → ℕ
last_key a [] = a
last_key a (r ∷ rs) = last_key r.seq rs

abbrev pub beyond : ℕ → HubRow → Bool
beyond a r = ltb a r.seq

pub Keyed-Ascending : (lo hi : ℕ) (rs : List HubRow) → Keyed lo rs hi → Ascending lo rs
Keyed-Ascending lo hi [] k = tt
Keyed-Ascending lo hi (r ∷ rs) k = (k.0, Keyed-Ascending r.seq hi rs k.1)

lower : (a b : ℕ) (rs : List HubRow) → a ≤ b → Ascending b rs → Ascending a rs
lower a b [] h k = tt
lower a b (r ∷ rs) h k = (omega arith, k.1)

pub Ascending-select :
    (lo : ℕ) (p : HubRow → Bool) (rs : List HubRow) → Ascending lo rs → Ascending lo (select p rs)
Ascending-select lo p [] k = tt
Ascending-select lo p (r ∷ rs) k = elim (Bool-cases (p r)) [
  | inl h ↦ rw h (k.0, Ascending-select r.seq p rs k.1)
  | inr h ↦ rw h (Ascending-select lo p rs (lower lo r.seq rs (omega arith) k.1))
]

Ascending-beyond :
    (lo a : ℕ) (rs : List HubRow) → Ascending lo rs → Ascending a (select (beyond a) rs)
Ascending-beyond lo a [] k = tt
Ascending-beyond lo a (r ∷ rs) k = elim (Bool-cases (beyond a r)) [
  | inl h ↦ rw h (ground arith, Ascending-select r.seq (beyond a) rs k.1)
  | inr h ↦ rw h (Ascending-beyond r.seq a rs k.1)
]

all_beyond : (lo a : ℕ) (rs : List HubRow) → a ≤ lo → Ascending lo rs → select (beyond a) rs ≡ rs
all_beyond lo a [] h k = refl
all_beyond lo a (r ∷ rs) h k = ground (arith, all_beyond r.seq a rs)

beyond_twice :
    (a b : ℕ) (rs : List HubRow)
    → a ≤ b
    → select (beyond b) (select (beyond a) rs) ≡ select (beyond b) rs
beyond_twice a b [] h = refl
beyond_twice a b (r ∷ rs) h = ground (arith, beyond_twice a b rs)

past-beyond :
    (agent_id : String) (a : ℕ) (rs : List HubRow)
    → select (past agent_id a) rs ≡ select (beyond a) (select (of_agent agent_id) rs)
past-beyond agent_id a [] = refl
past-beyond agent_id a (r ∷ rs) = ground (arith, past-beyond agent_id a rs)

last_key-le : (lo n : ℕ) (rs : List HubRow) → Ascending lo rs → lo ≤ last_key lo (take n rs)
last_key-le lo zero rs k = omega arith
last_key-le lo (suc n) [] k = omega arith
last_key-le lo (suc n) (r ∷ rs) k = omega (arith, k.0, last_key-le r.seq n rs k.1)

pub beyond-last_key :
    (lo n : ℕ) (rs : List HubRow)
    → Ascending lo rs
    → select (beyond (last_key lo (take n rs))) rs ≡ drop n rs
beyond-last_key lo zero rs k = all_beyond lo lo rs (omega arith) k
beyond-last_key lo (suc n) [] k = refl
beyond-last_key lo (suc n) (r ∷ rs) k =
    ground (arith, last_key-le r.seq n rs k.1, beyond-last_key r.seq n rs k.1)

-- After a page of the rows past `after`, the rows past the page's last key are those that the page
-- left out.
pub page_rest :
    (agent_id : String) (after n lo hi : ℕ) (rs : List HubRow)
    → Keyed lo rs hi
    → select (past agent_id (last_key after (take n (select (past agent_id after) rs)))) rs
      ≡ drop n (select (past agent_id after) rs)
page_rest agent_id after n lo hi rs k =
    let mine : List HubRow = select (of_agent agent_id) rs in
    let up =
      Ascending-beyond lo after mine
        (Ascending-select lo (of_agent agent_id) rs (Keyed-Ascending lo hi rs k)) in
    let next : ℕ = last_key after (take n (select (beyond after) mine)) in
    rw (past-beyond agent_id after rs) (
      past-beyond agent_id next rs
      ∙ sym (beyond_twice after next mine (last_key-le after n _ up))
      ∙ beyond-last_key after n (select (beyond after) mine) up)
