-- ===== src/Zcode/Environment.antt =====
-- What `NewFromEnvironment` of agent/internal/collector/zcode/collector.go makes of the environment.
use ai_control_hud.Prelude.{
  ℕ, ◌≤◌, ◌<◌, ◌≡◌, refl, ℤ, pos, String, Bool, true, ◌||◌, Option, none, some, arith, Bool-cases,
  inl, inr, ◌⊎◌, str_eq, trim_text, Option-cases,
}
use ai_control_hud.Zcode.Goal.{Settings}
use ai_control_hud.Zcode.Gathers.{bounded_lem}
use ai_control_hud.Zcode.Collector.{Layout, new_from_environment, settings_from}
use ai_control_hud.Zcode.Values.{bounded, bounded_positive_env}

-- A setting that the code can work with.
abbrev pub InRange : ℕ → ℤ → Type 0
InRange maximum n = (s : ℕ) × (n ≡ pos s) × (0 < s) × (s ≤ maximum)

bounded_positive_env_lem :
    (atoi : String → Option ℤ) (raw : String) (fallback maximum : ℕ)
    → 0 < fallback
    → fallback ≤ maximum
    → InRange maximum (pos (bounded_positive_env atoi raw fallback maximum))
unfolding bounded_positive_env
bounded_positive_env_lem atoi raw fallback maximum h k =
    elim (Bool-cases (str_eq (trim_text raw) "")) [
      | inl blank ↦ rw (bounded_positive_env, blank) (fallback, refl, h, k)
      | inr text ↦ elim (Option-cases (atoi (trim_text raw))) [
        | inl no_number ↦ rw (bounded_positive_env, text, no_number) (fallback, refl, h, k)
        | inr (n, parsed) ↦
            let (low, high) = bounded_lem n fallback maximum h k in
            rw (bounded_positive_env, text, parsed) (bounded n fallback maximum, refl, low, high)
      ]
    ]

abbrev pub AreInRange : Settings → Type 0
AreInRange c =
    InRange 3600 c.heartbeat_seconds
    × InRange 14400 c.turn_fresh_seconds
    × InRange 86400 c.recent_terminal_seconds
    × InRange 2592000 c.task_max_age_seconds
    × InRange 100 c.task_limit

settings_from-AreInRange :
    (atoi : String → Option ℤ) (env : String → String) → AreInRange (settings_from atoi env)
settings_from-AreInRange atoi env = (
  bounded_positive_env_lem atoi _ 120 3600 (omega arith) (omega arith),
  bounded_positive_env_lem atoi _ 1800 14400 (omega arith) (omega arith),
  bounded_positive_env_lem atoi _ 1800 86400 (omega arith) (omega arith),
  bounded_positive_env_lem atoi _ 86400 2592000 (omega arith) (omega arith),
  bounded_positive_env_lem atoi _ 20 100 (omega arith) (omega arith),
)

-- One of the two databases is there, where the paths are known.
abbrev pub HasDatabase : (String → Bool) → Option Layout → Type 0
HasDatabase exists none = ⊥
HasDatabase exists (some layout) =
    (exists layout.runtime_db ≡ true) ⊎ (exists layout.task_index_db ≡ true)

-- A collector is made exactly if the paths of the two databases can be resolved and there is a file
-- at one of them; whatever the variables say, each of its settings is at least 1 and at most its
-- maximum.
pub new_from_environment_lem :
    (atoi : String → Option ℤ) (env : String → String) (exists : String → Bool)
    (resolved : Option Layout)
    → (¬ HasDatabase exists resolved × (new_from_environment atoi env exists resolved ≡ none))
      ⊎ ((c : Settings) × (new_from_environment atoi env exists resolved ≡ some c)
          × HasDatabase exists resolved
          × AreInRange c)
unfolding new_from_environment
new_from_environment_lem atoi env exists none = inl (λ h. h, refl)
new_from_environment_lem atoi env exists (some layout) =
    elim (Bool-cases (exists layout.runtime_db || exists layout.task_index_db)) [
      | inl there ↦
          let made : new_from_environment atoi env exists (some layout)
              ≡ some (settings_from atoi env) =
            ground arith in
          inr (settings_from atoi env, made, ground arith, settings_from-AreInRange atoi env)
      | inr missing ↦ inl (λ h. ground arith, ground arith)
    ]
