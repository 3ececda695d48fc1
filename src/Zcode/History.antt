-- ===== src/Zcode/History.antt =====
-- What the task index gives (`collectTaskIndexExcluding` of
-- agent/internal/collector/zcode/collector.go).
use ai_control_hud.Prelude.{
  ◌-◌, ◌≡◌, sym, ap, ◌∙◌, String, true, not, List, [], take, select, All, All-take, arith,
  Result-cases, length-take, inl, inr, ok, subst,
}
use ai_control_hud.Domain.{Time, TaskStatus}
use ai_control_hud.Domain.Spec.{IsTask, IsSummary}
use ai_control_hud.Zcode.Goal.{Settings}
use ai_control_hud.Zcode.Goals.{limit_of}
use ai_control_hud.Zcode.Database.{verify_table_columns}
use ai_control_hud.Zcode.TaskIndex.{
  add_index_rows, task_index_columns, IndexDb, IndexRow, collect_task_index_excluding, index_rows,
  index_counts, cutoff_ms, counted_statuses, in_window,
}
use ai_control_hud.Zcode.Loops.{add_index_rows-take, shown_index}
use ai_control_hud.Zcode.Tally.{tally, count_statuses-tally}
use ai_control_hud.Zcode.Gathers.{shown_index-IsTask}
use ai_control_hud.Zcode.Apart.{Returns}
use ai_control_hud.Zcode.Whole.{IsSnapshot}
use ai_control_hud.Zcode.Values.{has}

tally-IsSummary : (ss : List TaskStatus) → IsSummary (tally ss)
tally-IsSummary ss = (omega arith, omega arith, omega arith, omega arith)

module _ (digest : String → String) (c : Settings) where
  listed-eq :
      (exclude : List String) (rows : List IndexRow)
      → add_index_rows digest (limit_of c) exclude rows []
        ≡ take (limit_of c) (shown_index digest (limit_of c) exclude rows)
  listed-eq exclude rows =
      let whole_limit : limit_of c - 0 ≡ limit_of c = omega arith in
      add_index_rows-take digest (limit_of c) exclude rows []
      ∙ ap (λ n. take n (shown_index digest (limit_of c) exclude rows)) whole_limit

  -- What a task index that can be read gives: the first tasks of its window that are not
  -- excluded, and the counts of the whole window.
  pub index-eq :
      (now : Time) (db : IndexDb) (exclude : List String)
      → Returns
          (λ s.
            (s.tasks
              ≡ take (limit_of c) (
                  shown_index digest
                    (limit_of c)
                    exclude
                    (index_rows db (cutoff_ms c now) (limit_of c))))
            × (s.summary
                ≡ tally
                    (counted_statuses exclude (select (in_window (cutoff_ms c now)) db.counted))))
          (collect_task_index_excluding digest c now db exclude)
  unfolding collect_task_index_excluding index_counts
  index-eq now db exclude =
      let listed = listed-eq exclude (index_rows db (cutoff_ms c now) (limit_of c)) in
      let counted =
        count_statuses-tally
          (counted_statuses exclude (select (in_window (cutoff_ms c now)) db.counted)) in
      ground (arith, listed, counted)

  -- A task index that can be read gives the first rows that are not excluded, up to the limit, of
  -- those that the query lists (in its order, and at most four times the limit of its window), and
  -- counts by status all rows of the window that are not excluded.
  pub collect_task_index-eq :
      (now : Time) (db : IndexDb) (exclude : List String)
      → db.opens ≡ true
      → verify_table_columns db.columns task_index_columns ≡ true
      → db.lists ≡ true
      → db.counts ≡ true
      → collect_task_index_excluding digest c now db exclude
        ≡ ok (record {
          summary =
              tally (counted_statuses exclude (select (in_window (cutoff_ms c now)) db.counted));
          tasks = take (limit_of c) (
              shown_index digest
                (limit_of c)
                exclude
                (index_rows db (cutoff_ms c now) (limit_of c)));
          session_ids = [];
        })
  unfolding collect_task_index_excluding index_counts
  collect_task_index-eq now db exclude opens schema lists counts =
      let listed = listed-eq exclude (index_rows db (cutoff_ms c now) (limit_of c)) in
      let counted =
        count_statuses-tally
          (counted_statuses exclude (select (in_window (cutoff_ms c now)) db.counted)) in
      ground (arith, listed, counted)

  pub history-IsSnapshot :
      (now : Time) (db : IndexDb) (exclude : List String)
      → Returns (IsSnapshot (limit_of c)) (collect_task_index_excluding digest c now db exclude)
  history-IsSnapshot now db exclude =
      let rows = index_rows db (cutoff_ms c now) (limit_of c) in
      let kept = select (λ (r : IndexRow). not (has exclude r.task_id)) rows in
      let all = shown_index digest (limit_of c) exclude rows in
      elim (Result-cases (collect_task_index_excluding digest c now db exclude)) [
        | inr (e, failed) ↦ rw failed tt
        | inl (s, returned) ↦
            let (listed, counted) = subst (Returns _) returned (index-eq now db exclude) in
            rw returned (record {
              summary = subst IsSummary (sym counted) (
                  tally-IsSummary
                    (counted_statuses exclude (select (in_window (cutoff_ms c now)) db.counted)));
              tasks =
                  subst (All IsTask) (sym listed)
                    (All-take IsTask (limit_of c) all (shown_index-IsTask digest exclude kept));
              room = rw listed (omega (arith, length-take (limit_of c) all));
            })
      ]
