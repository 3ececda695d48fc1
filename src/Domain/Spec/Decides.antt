-- ===== src/Domain/Spec/Decides.antt =====
-- `Validate` accepts a snapshot exactly if it is valid.
use ai_control_hud.Prelude.{◌≡◌, ◌↔◌, eq_iff, arith, ok}
use ai_control_hud.Domain.{HudState, Floating}
use ai_control_hud.Domain.Validate.{validate, expected_overall}
use ai_control_hud.Domain.Spec.{IsValid}
use ai_control_hud.Domain.Spec.Parts.{
  validate_health_iff, validate_zcode_iff, validate_command_code_iff,
}

module _ {F : Type 0} (fl : Floating F) where
  -- `Validate` returns no error exactly for the snapshots that are valid.
  pub validate_iff : (s : HudState F) → (validate fl s ≡ ok tt) ↔ IsValid fl s
  unfolding validate expected_overall
  validate_iff s = ground (
    arith,
    eq_iff s.server.version "",
    validate_health_iff "zcode" s.zcode.health,
    validate_health_iff "commandCode" s.command_code.health,
    validate_zcode_iff s.zcode,
    validate_command_code_iff fl s.command_code,
  )
