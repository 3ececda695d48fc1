-- ===== src/Zcode/Counted.antt =====
-- The counts that `Collect` of agent/internal/collector/zcode/collector.go returns.
use ai_control_hud.Prelude.{
  ℕ, ◌*◌, ◌≤◌, ◌≡◌, refl, ap, String, Bool, false, Option, none, some, List, [], ◌∷◌, count, take,
  select, arith, Bool-cases, Result-cases, inl, inr, ok, err, subst, sort_by, count-sort_by,
  if◌then◌else◌,
}
use ai_control_hud.Prelude.Result.{Result}
use ai_control_hud.Domain.{TaskStatus, TaskSummary, Time, task_eq}
use ai_control_hud.Domain.Spec.{WhenPresent}
use ai_control_hud.Zcode.Apart.{HasDistinctKeys, Returns}
use ai_control_hud.Zcode.Collected.{collect_live-IsLive}
use ai_control_hud.Zcode.History.{index-eq}
use ai_control_hud.Zcode.Collector.{
  Reading, collect, collect_live, with_history, without_history, live_and,
}
use ai_control_hud.Zcode.Counts.{Snapshot, statuses_of, has_tasks, snapshot_session_ids}
use ai_control_hud.Zcode.Goal.{Settings}
use ai_control_hud.Zcode.Goals.{limit_of}
use ai_control_hud.Zcode.Loops.{shown_index}
use ai_control_hud.Zcode.Status.{normalize_status}
use ai_control_hud.Zcode.Tally.{
  Covers, of_status, merge_two-Covers, count-take-le, statuses_of-take,
}
use ai_control_hud.Zcode.TaskIndex.{
  IndexDb, IndexRow, collect_task_index_excluding, index_rows, index_task, cutoff_ms,
  counted_statuses, in_window, pinned_first,
}
use ai_control_hud.Zcode.Values.{has, text_or_empty}
use ai_control_hud.Zcode.Whole.{IsLive, ReturnsLive}

-- A row that is not excluded, with a status.
abbrev is_of : List String → TaskStatus → IndexRow → Bool
is_of exclude s r =
    if has exclude r.task_id
    then false
    else task_eq (normalize_status (text_or_empty r.task_status)) s

counted-count :
    (exclude : List String) (s : TaskStatus) (rows : List IndexRow)
    → of_status s (counted_statuses exclude rows) ≡ count (is_of exclude s) rows
unfolding counted_statuses
counted-count exclude s [] = refl
counted-count exclude s (r ∷ rs) = ground (arith, counted-count exclude s rs)

shown-count :
    (digest : String → String) (limit : ℕ) (exclude : List String) (s : TaskStatus)
    (rows : List IndexRow)
    → of_status s (statuses_of (shown_index digest limit exclude rows))
      ≡ count (is_of exclude s) rows
unfolding index_task
shown-count digest limit exclude s [] = refl
shown-count digest limit exclude s (r ∷ rs) = ground (arith, shown-count digest limit exclude s rs)

count-statuses-take :
    (s : TaskStatus) (n : ℕ) (ts : List TaskSummary)
    → of_status s (statuses_of (take n ts)) ≤ of_status s (statuses_of ts)
count-statuses-take s n ts =
    rw (statuses_of-take n ts) (count-take-le (λ t. task_eq t s) n (statuses_of ts))

window-count :
    (p : IndexRow → Bool) (c : Settings) (now : Time) (db : IndexDb)
    → count p (index_rows db (cutoff_ms c now) (limit_of c))
      ≤ count p (select (in_window (cutoff_ms c now)) db.listed)
unfolding index_rows
window-count p c now db =
    let window = select (in_window (cutoff_ms c now)) db.listed in
    omega (
      arith,
      count-take-le p (limit_of c * 4) (sort_by pinned_first window),
      count-sort_by pinned_first p window,
    )

-- The tasks of the index with a status are no more than its counts say.
listed-le-counted :
    (digest : String → String) (c : Settings) (now : Time) (db : IndexDb) (exclude : List String)
    (s : TaskStatus)
    → db.counted ≡ db.listed
    → of_status s (
        statuses_of (
          take (limit_of c) (
            shown_index digest
              (limit_of c)
              exclude
              (index_rows db (cutoff_ms c now) (limit_of c)))))
      ≤ of_status s (counted_statuses exclude (select (in_window (cutoff_ms c now)) db.counted))
listed-le-counted digest c now db exclude s same =
    let rows = index_rows db (cutoff_ms c now) (limit_of c) in
    let counts =
      ap (λ rs. of_status s (counted_statuses exclude (select (in_window (cutoff_ms c now)) rs)))
        same in
    omega (
      arith,
      counts,
      count-statuses-take s (limit_of c) (shown_index digest (limit_of c) exclude rows),
      shown-count digest (limit_of c) exclude s rows,
      window-count (is_of exclude s) c now db,
      counted-count exclude s (select (in_window (cutoff_ms c now)) db.listed),
    )

module _ (digest : String → String) (c : Settings) where
  history-Covers :
      (now : Time) (db : IndexDb) (exclude : List String)
      → db.counted ≡ db.listed
      → Returns
          (λ s. Covers s.summary s.tasks)
          (collect_task_index_excluding digest c now db exclude)
  history-Covers now db exclude same =
      elim (Result-cases (collect_task_index_excluding digest c now db exclude)) [
        | inr (e, failed) ↦ rw failed tt
        | inl (s, returned) ↦
            let (listed, counted) = subst (Returns _) returned (index-eq digest c now db exclude) in
            let le = λ (t : TaskStatus). listed-le-counted digest c now db exclude t same in
            rw (returned, listed, counted)
              (
                omega (arith, le TaskStatus.running),
                omega (arith, le TaskStatus.waiting),
                omega (arith, le TaskStatus.failed),
                omega (arith, le TaskStatus.completed),
              )
      ]

  with_history-Covers :
      (live : Option Snapshot) (history : Result Snapshot)
      → WhenPresent (IsLive (limit_of c)) live
      → Returns (λ s. Covers s.summary s.tasks) history
      → Returns (λ s. Covers s.summary s.tasks) (with_history digest c live history)
  unfolding with_history live_and
  with_history-Covers none history h k = k
  with_history-Covers (some live) (err e) (_, h) k = elim (Bool-cases (has_tasks (some live))) [
    | inl tasks ↦ rw (with_history, tasks) h
    | inr empty ↦ rw (with_history, empty) tt
  ]
  with_history-Covers (some live) (ok history) (_, h) k =
      elim (Bool-cases (has_tasks (some live))) [
        | inl tasks ↦ rw (with_history, tasks) (merge_two-Covers live history (limit_of c) h k)
        | inr empty ↦ rw (with_history, empty) k
      ]

  without_history-Covers :
      (live : Option Snapshot)
      → WhenPresent (IsLive (limit_of c)) live
      → Returns (λ s. Covers s.summary s.tasks) (without_history digest c live)
  unfolding without_history
  without_history-Covers none h = tt
  without_history-Covers (some live) (_, h) = elim (Bool-cases (has_tasks (some live))) [
    | inl tasks ↦ rw (without_history, tasks) h
    | inr empty ↦ rw (without_history, empty) tt
  ]

  -- The counts that are returned with the tasks are of every task that is listed, also where the
  -- limit has cut the list or live sessions and the task index were merged. The turn log gives one
  -- state for each session, and the task index does not change between its two queries.
  pub collect-Covers :
      (r : Reading)
      → HasDistinctKeys r.sessions_turns
      → r.index_db.counted ≡ r.index_db.listed
      → Returns (λ s. Covers s.summary s.tasks) (collect digest c r)
  unfolding collect
  collect-Covers r d same = elim (Result-cases (collect_live digest c r)) [
    | inr (e, failed) ↦ rw (collect, failed) tt
    | inl (live, returned) ↦
        let h = subst (ReturnsLive c) returned (collect_live-IsLive digest c r d) in
        elim (Bool-cases r.index_exists) [
          | inl there ↦
              rw (collect, returned, there)
                (with_history-Covers live _ h
                  (history-Covers r.index_at r.index_db (snapshot_session_ids live) same))
          | inr absent ↦ rw (collect, returned, absent) (without_history-Covers live h)
        ]
  ]
