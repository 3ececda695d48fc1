-- ===== src/Collect/Late.antt =====
-- A failed collection while the clock is set back (agent/internal/runtime/runtime.go).
use ai_control_hud.Prelude.{◌<◌, ◌≡◌, refl, ap, ◌∙◌, String, Option, some, List, arith}
use ai_control_hud.Domain.{Time, TaskSummary, ZCodeState, ZCodeSummary, Floating}
use ai_control_hud.Domain.Spec.{IsValid}
use ai_control_hud.Snapshot.{SnapshotStore, update_zcode}
use ai_control_hud.Snapshot.Laws.{update_zcode_lem}
use ai_control_hud.Collect.{failed, aged, without_zcode, collect_zcode_once}
use ai_control_hud.Collect.Messages.{zcode_message}
use ai_control_hud.Collect.Shown.{failure_from, failure-eq}

with_data :
    (now : Time) (text : String) (last : Time) (summary : ZCodeSummary) (tasks : List TaskSummary)
    (x : Option ZCodeSummary) (y : Option (List TaskSummary)) (t : Option Time)
    → x ≡ some summary
    → y ≡ some tasks
    → t ≡ some last
    → without_zcode now text x y t
      ≡ record { health = aged now last text; summary = some summary; tasks = some tasks }
with_data now text last summary tasks x y t a b c = rw (a, b, c) refl

module _ {F : Type 0} (fl : Floating F) where
  -- A collection of the tasks that fails while the clock stands before the last success leaves the
  -- snapshot as it was, so that it goes on to show that success as it did.
  pub late_failure_unseen :
      (now last : Time) (text : String) (s : SnapshotStore F) (summary : ZCodeSummary)
      (tasks : List TaskSummary)
      → IsValid fl s.state
      → s.state.zcode.summary ≡ some summary
      → s.state.zcode.tasks ≡ some tasks
      → s.state.zcode.health.last_success_at ≡ some last
      → now < last
      → collect_zcode_once fl now (failed text) s ≡ s
  unfolding collect_zcode_once failure_from
  late_failure_unseen now last text s summary tasks v a b c h =
      let z : ZCodeState = record {
        health = aged now last (zcode_message text);
        summary = some summary;
        tasks = some tasks;
      } in
      let (q, _, r) = update_zcode_lem fl s z v in
      failure-eq fl now text s
      ∙ ap (λ p. (update_zcode fl s p).0)
          (with_data now (zcode_message text) last summary tasks _ _ _ a b c)
      ∙ r (λ e. let (x, _) = q.0 e in absurd (omega (arith, x.1.1, h)))
