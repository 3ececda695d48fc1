-- ===== src/Zcode/Errors.antt =====
-- The errors of agent/internal/collector/zcode, and what agent/internal/runtime/runtime.go shows of
-- them.
use ai_control_hud.Prelude.{◌≡◌, String, true, ◌∷◌, Error, ok, err, ◌⊎◌, str_eq, any}
use ai_control_hud.Prelude.Result.{Result}
use ai_control_hud.Collect.Messages.{zcode_message, zcode_texts}
use ai_control_hud.Zcode.Feed.{error_text}

-- What holds of an error that is returned.
abbrev pub Fails {ℓ} : {A : Type 0} → (Error → Type ℓ) → Result A → Type ℓ
Fails P (err e) = P e
Fails P (ok a) = Unit

abbrev pub runtime_text : String
runtime_text = "ZCode runtime session database read failed"

-- An error with one of the texts that may be shown, or that of a runtime session.
abbrev pub IsKnown : Error → Type 0
IsKnown e = any (str_eq (error_text e)) (runtime_text ∷ zcode_texts) ≡ true

abbrev pub general_text : String
general_text = "ZCode collection failed"

-- The text is shown as it is, or it is that of a runtime session and a general one is shown.
abbrev pub IsShown : String → Type 0
IsShown t = (zcode_message t ≡ t) ⊎ ((t ≡ runtime_text) × (zcode_message t ≡ general_text))
