-- ===== src/Zcode/Runs.antt =====
-- What the loops of agent/internal/collector/zcode/runtime_session.go add: each session once, none
-- that is excluded.
use ai_control_hud.Prelude.{
  ℕ, ◌≤◌, ◌<◌, ◌≡◌, ◌≢◌, refl, sym, ap, ◌∙◌, String, true, false, List, [], ◌∷◌, ◌++◌, map, length,
  All, All-append, All-map, arith, eq_iff, length-append, subst,
}
use ai_control_hud.Domain.{TaskSummary}
use ai_control_hud.Domain.Spec.{IsTask, Distinct}
use ai_control_hud.Zcode.Goals.{Found, found}
use ai_control_hud.Zcode.Values.{has, task_id_hash}

pub has-true : (k : String) (ks : List String) → has (k ∷ ks) k ≡ true
has-true k ks = ground (arith, eq_iff k k)

pub has-cons : (j k : String) (ks : List String) → has ks k ≡ true → has (j ∷ ks) k ≡ true
has-cons j k ks h = ground arith

-- A key that is not among those seen is none of them.
unseen-ne :
    (k : String) (seen ks : List String)
    → has seen k ≡ false
    → All (λ j. has seen j ≡ true) ks
    → All (λ j. j ≢ k) ks
unseen-ne k seen ks h =
    All-map _ _ (λ j p e. let q : has seen k ≡ true = subst (λ x. has seen x ≡ true) e p in cc) ks

Distinct-snoc :
    (ks : List String) (k : String) → Distinct ks → All (λ j. j ≢ k) ks → Distinct (ks ++ k ∷ [])
Distinct-snoc [] k d h = (tt, tt)
Distinct-snoc (j ∷ ks) k (a, d) (n, h) =
    (All-append (λ i. j ≢ i) ks (k ∷ []) a (n, tt), Distinct-snoc ks k d h)

abbrev pub ids_of : List TaskSummary → List String
ids_of [] = []
ids_of (t ∷ ts) = t.id ∷ ids_of ts

map-snoc :
    (f : String → String) (ks : List String) (k : String)
    → map f (ks ++ k ∷ []) ≡ map f ks ++ f k ∷ []
map-snoc f [] k = refl
map-snoc f (j ∷ ks) k = ap (λ l. f j ∷ l) (map-snoc f ks k)

ids_of-snoc :
    (ts : List TaskSummary) (t : TaskSummary) → ids_of (ts ++ t ∷ []) ≡ ids_of ts ++ t.id ∷ []
ids_of-snoc [] t = refl
ids_of-snoc (u ∷ ts) t = ap (λ l. u.id ∷ l) (ids_of-snoc ts t)

-- What the loops keep of the tasks so far: they can be shown, no two are of one session and none is
-- of an excluded one, and their ids are made of their sessions.
pub record IsFound (digest : String → String) (limit : ℕ) (exclude seen : List String) (f : Found)
    : Type 0 where
  pub tasks : All IsTask f.tasks
  pub room : length f.tasks ≤ limit
  pub apart : All (λ k. has exclude k ≡ false) f.session_ids
  pub distinct : Distinct f.session_ids
  pub seen_ids : All (λ k. has seen k ≡ true) f.session_ids
  pub named : ids_of f.tasks ≡ map (task_id_hash digest "runtime-session") f.session_ids

module _ (digest : String → String) (limit : ℕ) (exclude : List String) where
  pub IsFound-seen :
      (seen : List String) (k : String) (f : Found)
      → IsFound digest limit exclude seen f
      → IsFound digest limit exclude (k ∷ seen) f
  IsFound-seen seen k f h = record {
    tasks = h.tasks;
    room = h.room;
    apart = h.apart;
    distinct = h.distinct;
    seen_ids = All-map _ _ (λ j p. has-cons k j seen p) f.session_ids h.seen_ids;
    named = h.named;
  }

  pub IsFound-found :
      (seen : List String) (k : String) (t : TaskSummary) (f : Found)
      → IsFound digest limit exclude seen f
      → length f.tasks < limit
      → has exclude k ≡ false
      → has seen k ≡ false
      → IsTask t
      → t.id ≡ task_id_hash digest "runtime-session" k
      → IsFound digest limit exclude (k ∷ seen) (found f k t)
  IsFound-found seen k t f h room e s v n = record {
    tasks = All-append IsTask f.tasks (t ∷ []) h.tasks (v, tt);
    room = omega (arith, length-append f.tasks (t ∷ []));
    apart = All-append (λ j. has exclude j ≡ false) f.session_ids (k ∷ []) h.apart (e, tt);
    distinct =
        Distinct-snoc f.session_ids k h.distinct (unseen-ne k seen f.session_ids s h.seen_ids);
    seen_ids =
        All-append (λ j. has (k ∷ seen) j ≡ true) f.session_ids (k ∷ [])
          (All-map _ _ (λ j p. has-cons k j seen p) f.session_ids h.seen_ids) (has-true k seen, tt);
    named =
        ids_of-snoc f.tasks t
        ∙ ap (λ l. l ++ t.id ∷ []) h.named
        ∙ ap (λ i. map (task_id_hash digest "runtime-session") f.session_ids ++ i ∷ []) n
        ∙ sym (map-snoc (task_id_hash digest "runtime-session") f.session_ids k);
  }

  has_self : (ks : List String) → All (λ k. has ks k ≡ true) ks
  has_self [] = tt
  has_self (k ∷ ks) = (has-true k ks, All-map _ _ (λ j p. has-cons k j ks p) ks (has_self ks))

  -- What is seen no longer matters when the loop is done.
  pub IsFound-own :
      (seen : List String) (f : Found)
      → IsFound digest limit exclude seen f
      → IsFound digest limit exclude f.session_ids f
  IsFound-own seen f h = record {
    tasks = h.tasks;
    room = h.room;
    apart = h.apart;
    distinct = h.distinct;
    seen_ids = has_self f.session_ids;
    named = h.named;
  }
