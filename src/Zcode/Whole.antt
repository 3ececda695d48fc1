-- ===== src/Zcode/Whole.antt =====
-- The snapshots that agent/internal/collector/zcode gathers can be shown, list no more tasks than
-- the limit, and count what they list.
use ai_control_hud.Prelude.{
  ℕ, suc, ◌-◌, ◌≤◌, ◌≡◌, refl, sym, ap, ◌∙◌, ℤ, pos, ◌≤ℤ◌, String, true, Option, List, [], ◌∷◌, map,
  length, take, ◌==◌, Table, All, All-take, arith, Bool-cases, length-take, inl, inr, ok, subst,
}
use ai_control_hud.Prelude.Result.{Result}
use ai_control_hud.Domain.{Time, TaskSummary, ZCodeSummary}
use ai_control_hud.Domain.Spec.{IsTask, IsSummary, WhenPresent}
use ai_control_hud.Zcode.TurnLog.{TurnLogState}
use ai_control_hud.Zcode.Counts.{Snapshot, summarize_tasks}
use ai_control_hud.Zcode.Database.{
  RuntimeDb, goal_query, todo_query, verify_goal_schema, goal_rows, GoalRow,
}
use ai_control_hud.Zcode.Goal.{Settings}
use ai_control_hud.Zcode.Goals.{
  Found, nothing_found, snapshot_of, limit_of, gather_goals, some_goals, collect_goals,
}
use ai_control_hud.Zcode.Loops.{
  found_all, found_all-tasks, gather_goals-take, shown_goals, take-nil,
}
use ai_control_hud.Zcode.Tally.{Covers, summarize_tasks-Covers}
use ai_control_hud.Zcode.Gathers.{limit-pos, shown_goals-IsTask}
use ai_control_hud.Zcode.Apart.{Returns}

-- A snapshot that can be shown.
pub record IsSnapshot (limit : ℕ) (s : Snapshot) : Type 0 where
  pub summary : IsSummary s.summary
  pub tasks : All IsTask s.tasks
  pub room : length s.tasks ≤ limit

-- A snapshot of what is live, whose counts tell of every task.
abbrev pub IsLive : ℕ → Snapshot → Type 0
IsLive limit s = IsSnapshot limit s × Covers s.summary s.tasks

nonnegative-above : (n : ℕ) (x : ℤ) → pos n ≤ℤ x → pos 0 ≤ℤ x
nonnegative-above n x h = omega arith

pub Covers-IsSummary :
    (summary : ZCodeSummary) (ts : List TaskSummary) → Covers summary ts → IsSummary summary
Covers-IsSummary summary ts (h, k, l, m) = (
  nonnegative-above _ summary.running h,
  nonnegative-above _ summary.waiting k,
  nonnegative-above _ summary.failed l,
  nonnegative-above _ summary.completed m,
)

pub snapshot_of-IsLive :
    (limit : ℕ) (f : Found)
    → All IsTask f.tasks
    → length f.tasks ≤ limit
    → WhenPresent (IsLive limit) (snapshot_of f)
unfolding snapshot_of
snapshot_of-IsLive limit f h room = elim (Bool-cases (length f.tasks == 0)) [
  | inl empty ↦ rw (snapshot_of, empty) tt
  | inr full ↦
      rw (snapshot_of, full)
        (
          record {
            summary =
                Covers-IsSummary (summarize_tasks f.tasks) f.tasks (summarize_tasks-Covers f.tasks);
            tasks = h;
            room = room;
          },
          summarize_tasks-Covers f.tasks,
        )
]

All-tasks :
    (es : List (String × TaskSummary))
    → All (λ (e : String × TaskSummary). IsTask e.1) es
    → All IsTask (map (λ (e : String × TaskSummary). e.1) es)
All-tasks [] h = tt
All-tasks (e ∷ es) (h, hs) = (h, All-tasks es hs)

pub length-map : {A B : Type 0} (f : A → B) (xs : List A) → length (map f xs) ≡ length xs
length-map f [] = refl
length-map f (x ∷ xs) = ap suc (length-map f xs)

-- Whether a snapshot that is returned is live.
abbrev pub ReturnsLive : Settings → Result (Option Snapshot) → Type 0
ReturnsLive c = Returns (WhenPresent (IsLive (limit_of c)))

module _ (digest : String → String) (c : Settings) (now : Time) (turns : Table TurnLogState)
    (db : RuntimeDb) where
  pub gather_goals-eq :
      (rows : List GoalRow)
      → gather_goals digest c now turns db (limit_of c) rows nothing_found
        ≡ found_all nothing_found (take (limit_of c) (shown_goals digest c now turns db rows))
  gather_goals-eq rows =
      let whole_limit : limit_of c - 0 ≡ limit_of c = omega arith in
      gather_goals-take digest c now turns db (limit_of c) rows nothing_found (limit-pos c)
      ∙ ap (λ n. found_all nothing_found (take n (shown_goals digest c now turns db rows)))
          whole_limit

  gather_goals-IsLive :
      (rows : List GoalRow)
      → WhenPresent
          (IsLive (limit_of c))
          (snapshot_of (gather_goals digest c now turns db (limit_of c) rows nothing_found))
  gather_goals-IsLive rows =
      let all = shown_goals digest c now turns db rows in
      let es = take (limit_of c) all in
      let listed : (found_all nothing_found es).tasks ≡ map (λ (e : String × TaskSummary). e.1) es =
        found_all-tasks nothing_found es in
      rw (gather_goals-eq rows) (
        snapshot_of-IsLive (limit_of c) (found_all nothing_found es)
          (subst (All IsTask) (sym listed) (
            All-tasks es
              (All-take _ (limit_of c) all (shown_goals-IsTask digest c now turns db rows))))
          (rw listed (
            omega (
              arith,
              length-map (λ (e : String × TaskSummary). e.1) es,
              length-take (limit_of c) all,
            ))))

  some_goals-IsLive : (rows : List GoalRow) → ReturnsLive c (some_goals digest c now turns db rows)
  unfolding some_goals
  some_goals-IsLive [] = tt
  some_goals-IsLive (row ∷ rows) = elim (Bool-cases (db.answers todo_query)) [
    | inl answers ↦ rw (some_goals, answers) (gather_goals-IsLive (row ∷ rows))
    | inr fails ↦ rw (some_goals, fails) tt
  ]

  pub collect_goals-IsLive : ReturnsLive c (collect_goals digest c now turns db)
  unfolding collect_goals
  collect_goals-IsLive = ground (arith, some_goals-IsLive (goal_rows db (limit_of c)))

  some_goals-eq :
      (rows : List GoalRow)
      → db.answers todo_query ≡ true
      → some_goals digest c now turns db rows
        ≡ ok (
            snapshot_of (
              found_all nothing_found (take (limit_of c) (shown_goals digest c now turns db rows))))
  unfolding some_goals snapshot_of
  some_goals-eq [] todos =
      ap (λ es. ok (snapshot_of (found_all nothing_found es))) (sym (take-nil (limit_of c)))
  some_goals-eq (row ∷ rows) todos =
      rw (some_goals, todos) (ap (λ f. ok (snapshot_of f)) (gather_goals-eq (row ∷ rows)))

  -- A runtime database that can be read gives the first Goals that are to be shown, in the order of
  -- the query and up to the limit, with their sessions; nil if there is none.
  pub collect_goals-eq :
      db.opens ≡ true
      → verify_goal_schema db ≡ true
      → db.answers goal_query ≡ true
      → db.answers todo_query ≡ true
      → collect_goals digest c now turns db
        ≡ ok (
            snapshot_of (
              found_all nothing_found (
                take (limit_of c) (shown_goals digest c now turns db (goal_rows db (limit_of c))))))
  unfolding collect_goals
  collect_goals-eq opens schema goals todos =
      ground (arith, some_goals-eq (goal_rows db (limit_of c)) todos)
