-- ===== src/Zcode/Loops.antt =====
-- What the loops of agent/internal/collector/zcode/collector.go gather, without their tests of the
-- limit: the first tasks of all that the rows show.
use ai_control_hud.Prelude.{
  ℕ, zero, suc, ◌-◌, ◌<◌, ◌≤◌, ◌≡◌, refl, sym, ap, ◌∙◌, String, false, not, Option, none, some,
  List, [], ◌∷◌, ◌++◌, length, take, select, leb, lookup, Table, map, arith, Bool-cases, leb→le,
  leb_false→lt, inl, inr, Option-cases, length-append,
}
use mathlib.Core.List.{append-nil, append_assoc}
use ai_control_hud.Domain.{Time, TaskSummary}
use ai_control_hud.Zcode.TurnLog.{TurnLogState}
use ai_control_hud.Zcode.Counts.{fill}
use ai_control_hud.Zcode.Database.{RuntimeDb, GoalRow, todos_of}
use ai_control_hud.Zcode.Goal.{Settings, goal_task}
use ai_control_hud.Zcode.Goals.{Found, found, add_goal, gather_goals, enliven}
use ai_control_hud.Zcode.TaskIndex.{IndexRow, add_index_rows, index_task}
use ai_control_hud.Zcode.Values.{has}

-- One task more than those so far.
take-cons :
    {A : Type 0} (limit : ℕ) (xs : List A) (y : A) (ys : List A)
    → length xs < limit
    → xs ++ take (limit - length xs) (y ∷ ys)
      ≡ (xs ++ y ∷ []) ++ take (limit - length (xs ++ y ∷ [])) ys
take-cons limit xs y ys h =
    let room : limit - length xs ≡ suc (limit - length (xs ++ y ∷ [])) =
      omega (arith, length-append xs (y ∷ [])) in
    ap (λ n. xs ++ take n (y ∷ ys)) room
    ∙ sym (append_assoc xs (y ∷ []) (take (limit - length (xs ++ y ∷ [])) ys))

take-full :
    {A : Type 0} (limit : ℕ) (xs ys : List A)
    → limit ≤ length xs
    → xs ++ take (limit - length xs) ys ≡ xs
take-full limit xs ys h =
    let none_left : limit - length xs ≡ 0 = omega arith in
    ap (λ n. xs ++ take n ys) none_left ∙ append-nil xs

pub take-nil : {A : Type 0} (n : ℕ) → (let none_at_all : List A = [] in take n none_at_all) ≡ []
take-nil zero = refl
take-nil (suc n) = refl

pub fill-take :
    (limit : ℕ) (a b : List TaskSummary) → fill limit a b ≡ a ++ take (limit - length a) b
unfolding fill
fill-take limit a [] = sym (ap (λ l. a ++ l) (take-nil (limit - length a)) ∙ append-nil a)
fill-take limit a (t ∷ ts) = elim (Bool-cases (leb limit (length a))) [
  | inl full ↦ rw (fill, full) (sym (take-full limit a (t ∷ ts) (leb→le _ _ full)))
  | inr room ↦
      rw (fill, room)
        (fill-take limit (a ++ t ∷ []) ts ∙ sym (take-cons limit a t ts (leb_false→lt _ _ room)))
]

-- Tasks with their sessions, added one by one.
abbrev pub found_all : Found → List (String × TaskSummary) → Found
found_all f [] = f
found_all f ((id, t) ∷ es) = found_all (found f id t) es

pub found_all-tasks :
    (f : Found) (es : List (String × TaskSummary))
    → (found_all f es).tasks ≡ f.tasks ++ map (λ (e : String × TaskSummary). e.1) es
found_all-tasks f [] = sym (append-nil f.tasks)
found_all-tasks f ((id, t) ∷ es) =
    found_all-tasks (found f id t) es
    ∙ append_assoc f.tasks (t ∷ []) (map (λ (e : String × TaskSummary). e.1) es)

pub found_all-session_ids :
    (f : Found) (es : List (String × TaskSummary))
    → (found_all f es).session_ids ≡ f.session_ids ++ map (λ (e : String × TaskSummary). e.0) es
found_all-session_ids f [] = sym (append-nil f.session_ids)
found_all-session_ids f ((id, t) ∷ es) =
    found_all-session_ids (found f id t) es
    ∙ append_assoc f.session_ids (id ∷ []) (map (λ (e : String × TaskSummary). e.0) es)

module _ (digest : String → String) (c : Settings) (now : Time) (turns : Table TurnLogState)
    (db : RuntimeDb) where
  -- What a row shows, with its session.
  abbrev pub shown_by : GoalRow → Option TaskSummary → List (String × TaskSummary)
  shown_by row none = []
  shown_by row (some t) =
      (row.target.session_id, enliven c now (lookup row.target.session_id turns) t) ∷ []

  abbrev pub shown_goals : List GoalRow → List (String × TaskSummary)
  shown_goals [] = []
  shown_goals (row ∷ rows) =
      shown_by row (goal_task digest c now row (todos_of db row.target.session_id))
      ++ shown_goals rows

  add_goal-eq :
      (row : GoalRow) (f : Found)
      → add_goal digest c now turns db row f
        ≡ found_all f
            (shown_by row (goal_task digest c now row (todos_of db row.target.session_id)))
  unfolding add_goal
  add_goal-eq row f =
      elim (Option-cases (goal_task digest c now row (todos_of db row.target.session_id))) [
        | inl hidden ↦ rw (add_goal, hidden) refl
        | inr (t, shows) ↦ rw (add_goal, shows) refl
      ]

  pub gather_goals-take :
      (limit : ℕ) (rows : List GoalRow) (f : Found)
      → length f.tasks < limit
      → gather_goals digest c now turns db limit rows f
        ≡ found_all f (take (limit - length f.tasks) (shown_goals rows))
  unfolding gather_goals
  gather_goals-take limit [] f h = ap (found_all f) (sym (take-nil (limit - length f.tasks)))
  gather_goals-take limit (row ∷ rows) f h =
      elim (Option-cases (goal_task digest c now row (todos_of db row.target.session_id))) [
        | inl hidden ↦
            let same : add_goal digest c now turns db row f ≡ f =
              add_goal-eq row f ∙ ap (λ o. found_all f (shown_by row o)) hidden in
            let room : leb limit (length f.tasks) ≡ false = ground arith in
            rw (gather_goals, same, hidden, room, same) (gather_goals-take limit rows f h)
        | inr (t, shows) ↦
            let task = enliven c now (lookup row.target.session_id turns) t in
            let g = found f row.target.session_id task in
            let more : add_goal digest c now turns db row f ≡ g =
              add_goal-eq row f ∙ ap (λ o. found_all f (shown_by row o)) shows in
            let one_less : limit - length f.tasks ≡ suc (limit - length g.tasks) =
              omega (arith, length-append f.tasks (task ∷ [])) in
            rw (gather_goals, more, shows, one_less)
              (elim (Bool-cases (leb limit (length g.tasks))) [
                | inl full ↦
                    let none_left : limit - length g.tasks ≡ 0 =
                      omega (arith, leb→le limit (length g.tasks) full) in
                    rw (full, none_left, more) refl
                | inr room ↦
                    rw (room, more) (gather_goals-take limit rows g (leb_false→lt _ _ room))
              ])
      ]

module _ (digest : String → String) (limit : ℕ) (exclude : List String) where
  -- The tasks of the rows that are not excluded.
  abbrev pub shown_index : List IndexRow → List TaskSummary
  shown_index rows =
      map (index_task digest) (select (λ (r : IndexRow). not (has exclude r.task_id)) rows)

  pub add_index_rows-take :
      (rows : List IndexRow) (tasks : List TaskSummary)
      → add_index_rows digest limit exclude rows tasks
        ≡ tasks ++ take (limit - length tasks) (shown_index rows)
  unfolding add_index_rows
  add_index_rows-take [] tasks =
      sym (ap (λ l. tasks ++ l) (take-nil (limit - length tasks)) ∙ append-nil tasks)
  add_index_rows-take (r ∷ rs) tasks = elim (Bool-cases (has exclude r.task_id)) [
    | inl skip ↦ rw (add_index_rows, skip) (add_index_rows-take rs tasks)
    | inr kept ↦ elim (Bool-cases (leb limit (length tasks))) [
      | inl full ↦
          rw (add_index_rows, kept, full)
            (add_index_rows-take rs tasks
              ∙ take-full limit tasks (shown_index rs) (leb→le _ _ full)
              ∙ sym
                  (take-full limit tasks (index_task digest r ∷ shown_index rs) (leb→le _ _ full)))
      | inr room ↦
          rw (add_index_rows, kept, room)
            (add_index_rows-take rs (tasks ++ index_task digest r ∷ [])
              ∙ sym (
                  take-cons limit tasks (index_task digest r) (shown_index rs)
                    (leb_false→lt _ _ room)))
    ]
  ]
