-- ===== src/Snapshot/Store.antt =====
-- `New`, `Get`, `Replace`, `UpdateZCode`, `UpdateCommandCode` and `mutate` of
-- agent/internal/store/snapshot.go.
use ai_control_hud.Prelude.{◌&&◌, Error, if◌then◌else◌, Option, none, some, ok, err, ◌>>◌}
use ai_control_hud.Prelude.Result.{Result}
use ai_control_hud.Domain.{
  HudState, ZCodeState, CommandCodeState, Floating, OverallStatusValue, SourceStatus, source_eq,
}
use ai_control_hud.Domain.Validate.{validate}
use ai_control_hud.Snapshot.Clone.{clone}

pub record SnapshotStore (F : Type 0) : Type 0 where
  pub state : HudState F

module _ {F : Type 0} (fl : Floating F) where
  unfoldable pub new : HudState F → Result (SnapshotStore F)
  new initial = validate fl initial >> ok (record { state = clone initial })

  unfoldable pub get : SnapshotStore F → HudState F
  get s = clone s.state

  abbrev pub commit :
      Result (Unit {0}) → SnapshotStore F → SnapshotStore F → SnapshotStore F × Option Error
  commit (ok _) before after = (after, none)
  commit (err e) before after = (before, some e)

  unfoldable pub replace : SnapshotStore F → HudState F → SnapshotStore F × Option Error
  replace s next = commit (validate fl next) s (record { state = clone next })

  unfoldable pub derive_overall : HudState F → HudState F
  derive_overall s = record s {
    overall = record {
      status =
          if source_eq s.zcode.health.status SourceStatus.ok
            && source_eq s.command_code.health.status SourceStatus.ok
          then OverallStatusValue.live
          else OverallStatusValue.degraded;
    };
  }

  unfoldable pub mutate :
      (HudState F → HudState F) → SnapshotStore F → SnapshotStore F × Option Error
  unfolding derive_overall
  mutate update s =
      let next = derive_overall (update (clone s.state)) in
      commit (validate fl next) s (record { state = clone next })

  unfoldable pub update_zcode : SnapshotStore F → ZCodeState → SnapshotStore F × Option Error
  update_zcode s next = mutate (λ st. record st { zcode = next }) s

  unfoldable pub update_command_code :
      SnapshotStore F → CommandCodeState F → SnapshotStore F × Option Error
  update_command_code s next = mutate (λ st. record st { command_code = next }) s
