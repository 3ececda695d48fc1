-- ===== src/Zcode/Collected.antt =====
-- What `Collect` of agent/internal/collector/zcode/collector.go returns.
use ai_control_hud.Prelude.{
  ℕ, ◌-◌, ℤ, pos, negsuc, ◌≤ℤ◌, ◌+ℤ◌, String, Option, none, some, length, take, All-append,
  All-take, arith, Bool-cases, Result-cases, length-append, length-take, inl, inr, ok, err, subst,
}
use ai_control_hud.Prelude.Result.{Result}
use ai_control_hud.Domain.Spec.{IsTask, WhenPresent}
use ai_control_hud.Zcode.Counts.{
  Snapshot, merge_two, merge_snapshots, snapshot_session_ids, has_tasks,
}
use ai_control_hud.Zcode.Goal.{Settings}
use ai_control_hud.Zcode.Goals.{limit_of, collect_goals}
use ai_control_hud.Zcode.Collector.{
  Reading, collect, collect_live, with_sessions, after_goals, with_history, without_history,
  live_and,
}
use ai_control_hud.Zcode.Loops.{fill-take}
use ai_control_hud.Zcode.Tally.{merge_two-Covers}
use ai_control_hud.Zcode.Apart.{HasDistinctKeys, Returns}
use ai_control_hud.Zcode.History.{history-IsSnapshot}
use ai_control_hud.Zcode.Whole.{IsSnapshot, IsLive, ReturnsLive, collect_goals-IsLive}
use ai_control_hud.Zcode.Live.{sessions-IsLive}

add-nonnegative : (x y : ℤ) → pos 0 ≤ℤ x → pos 0 ≤ℤ y → pos 0 ≤ℤ (x +ℤ y)
add-nonnegative (pos x) (pos y) h k = ground arith
add-nonnegative (pos x) (negsuc y) h k = ground arith
add-nonnegative (negsuc x) y h k = ground arith

merge_two-IsSnapshot :
    (limit : ℕ) (a b : Snapshot)
    → IsSnapshot limit a
    → IsSnapshot limit b
    → IsSnapshot limit (merge_two a b limit)
unfolding merge_two
merge_two-IsSnapshot limit a b h k = record {
  summary =
      let (h1, h2, h3, h4) = h.summary in
      let (k1, k2, k3, k4) = k.summary in
      (
        add-nonnegative a.summary.running b.summary.running h1 k1,
        add-nonnegative a.summary.waiting b.summary.waiting h2 k2,
        add-nonnegative a.summary.failed b.summary.failed h3 k3,
        add-nonnegative a.summary.completed b.summary.completed h4 k4,
      );
  tasks = rw (fill-take limit a.tasks b.tasks) (
      All-append IsTask a.tasks (take (limit - length a.tasks) b.tasks) h.tasks
        (All-take IsTask (limit - length a.tasks) b.tasks k.tasks));
  room = rw (fill-take limit a.tasks b.tasks) (
      omega (
        arith,
        h.room,
        length-append a.tasks (take (limit - length a.tasks) b.tasks),
        length-take (limit - length a.tasks) b.tasks,
      ));
}

module _ (digest : String → String) (c : Settings) where
  with_sessions-IsLive :
      (goals : Option Snapshot) (runtime : Result (Option Snapshot))
      → WhenPresent (IsLive (limit_of c)) goals
      → ReturnsLive c runtime
      → ReturnsLive c (with_sessions digest c goals runtime)
  unfolding with_sessions merge_snapshots
  with_sessions-IsLive goals (err e) h k = elim (Bool-cases (has_tasks goals)) [
    | inl tasks ↦ rw (with_sessions, tasks) h
    | inr empty ↦ rw (with_sessions, empty) tt
  ]
  with_sessions-IsLive none (ok runtime) h k = k
  with_sessions-IsLive (some goals) (ok none) h k = h
  with_sessions-IsLive (some goals) (ok (some runtime)) (h, hc) (k, kc) = (
    merge_two-IsSnapshot (limit_of c) goals runtime h k,
    merge_two-Covers goals runtime (limit_of c) hc kc,
  )

  after_goals-IsLive :
      (r : Reading) (goals : Result (Option Snapshot))
      → HasDistinctKeys r.sessions_turns
      → ReturnsLive c goals
      → ReturnsLive c (after_goals digest c r goals)
  unfolding after_goals
  after_goals-IsLive r (err e) d h = tt
  after_goals-IsLive r (ok goals) d h = with_sessions-IsLive goals _ h (
      sessions-IsLive digest c r.sessions_at r.sessions_turns r.sessions_db
        (snapshot_session_ids goals) d)

  pub collect_live-IsLive :
      (r : Reading) → HasDistinctKeys r.sessions_turns → ReturnsLive c (collect_live digest c r)
  unfolding collect_live
  collect_live-IsLive r d =
      let k =
        after_goals-IsLive r (collect_goals digest c r.goals_at r.goals_turns r.goals_db) d
          (collect_goals-IsLive digest c r.goals_at r.goals_turns r.goals_db) in
      ground (arith, k)

  with_history-IsSnapshot :
      (live : Option Snapshot) (history : Result Snapshot)
      → WhenPresent (IsLive (limit_of c)) live
      → Returns (IsSnapshot (limit_of c)) history
      → Returns (IsSnapshot (limit_of c)) (with_history digest c live history)
  unfolding with_history live_and
  with_history-IsSnapshot none history h k = k
  with_history-IsSnapshot (some live) (err e) (h, _) k = ground (arith, h)
  with_history-IsSnapshot (some live) (ok history) (h, _) k =
      ground (arith, k, merge_two-IsSnapshot (limit_of c) live history h k)

  without_history-IsSnapshot :
      (live : Option Snapshot)
      → WhenPresent (IsLive (limit_of c)) live
      → Returns (IsSnapshot (limit_of c)) (without_history digest c live)
  unfolding without_history
  without_history-IsSnapshot none h = tt
  without_history-IsSnapshot (some live) (h, _) = ground (arith, h)

  -- Whatever `Collect` returns can be shown, and lists no more tasks than the limit. The turn log
  -- gives one state for each session.
  pub collect-IsSnapshot :
      (r : Reading)
      → HasDistinctKeys r.sessions_turns
      → Returns (IsSnapshot (limit_of c)) (collect digest c r)
  unfolding collect
  collect-IsSnapshot r d = elim (Result-cases (collect_live digest c r)) [
    | inr (e, failed) ↦ rw (collect, failed) tt
    | inl (live, returned) ↦
        let h = subst (ReturnsLive c) returned (collect_live-IsLive r d) in
        elim (Bool-cases r.index_exists) [
          | inl there ↦
              rw (collect, returned, there)
                (with_history-IsSnapshot live _ h
                  (history-IsSnapshot digest c r.index_at r.index_db (snapshot_session_ids live)))
          | inr absent ↦ rw (collect, returned, absent) (without_history-IsSnapshot live h)
        ]
  ]
