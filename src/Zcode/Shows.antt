-- ===== src/Zcode/Shows.antt =====
-- What the collector of agent/internal/collector/zcode makes of a row can be shown.
use ai_control_hud.Prelude.{
  ◌≡◌, ◌≢◌, refl, ℤ, pos, negsuc, ◌≤ℤ◌, String, Bool, true, false, Option, none, some, List, [],
  ◌∷◌, arith, str_eq, eq_iff, led, led-ne, is_space, trim_text, trim_text-led, cut-led, append-led,
  codes, size, leb, Bool-cases, inl, inr, ◌⊎◌,
}
use ai_control_hud.Domain.{Time}
use ai_control_hud.Domain.Spec.{Nonnegative}
use ai_control_hud.Zcode.Values.{
  truncate, first_non_empty, goal_id, task_id_hash, nonnegative_int, whole_seconds,
}
use ai_control_hud.Zcode.Goal.{goal_duration, age_of, or_seconds, or_default}

abbrev pub begins : String → Bool
begins = led is_space

pub begins-ne : (s : String) → begins s ≡ true → s ≢ ""
begins-ne s h = led-ne is_space s h

-- Cutting to 500 bytes keeps the first character.
pub truncate-begins : (s : String) → begins s ≡ true → begins (truncate s 500) ≡ true
unfolding truncate
truncate-begins s h = elim (Bool-cases (leb (size (codes s)) 500)) [
  | inl fits ↦ rw fits h
  | inr long ↦ rw long (cut-led is_space 500 s (omega arith) h)
]

pub trimmed-begins : (s : String) → trim_text s ≢ "" → begins (truncate (trim_text s) 500) ≡ true
trimmed-begins s h = elim (trim_text-led s) [
  | inl e ↦ absurd (h e)
  | inr b ↦ truncate-begins (trim_text s) b
]

-- The first text that is not blank, if there is one.
pub first_non_empty-begins :
    (vs : List String) → (first_non_empty 500 vs ≡ "") ⊎ (begins (first_non_empty 500 vs) ≡ true)
unfolding first_non_empty
first_non_empty-begins [] = inl refl
first_non_empty-begins (v ∷ vs) = elim (Bool-cases (str_eq (trim_text v) "")) [
  | inl blank ↦ rw blank (first_non_empty-begins vs)
  | inr text ↦ inr (
      rw text (
        trimmed-begins v
          (λ e. let same : str_eq (trim_text v) "" ≡ true = (eq_iff (trim_text v) "").1 e in cc)))
]

-- A default that begins with no space keeps the title so.
pub or_default-begins :
    (s d : String) → (s ≡ "") ⊎ (begins s ≡ true) → begins d ≡ true → begins (or_default s d) ≡ true
or_default-begins s d h k = elim (Bool-cases (str_eq s "")) [
  | inl blank ↦ rw blank k
  | inr text ↦ rw text (elim h [
    | inl e ↦ let same : str_eq s "" ≡ true = (eq_iff s "").1 e in absurd (cc)
    | inr b ↦ b
  ])
]

pub goal_id-ne : (digest : String → String) (id : String) → goal_id digest id ≢ ""
unfolding goal_id
goal_id-ne digest id =
    led-ne (λ c. false) _ (append-led (λ c. false) "zcode-goal-" (digest id) refl)

pub task_id_hash-ne : (digest : String → String) (key id : String) → task_id_hash digest key id ≢ ""
unfolding task_id_hash
task_id_hash-ne digest key id = led-ne (λ c. false) _ (append-led (λ c. false) "zcode-" _ refl)

pub nonnegative_int-Nonnegative : (n : Option ℤ) → Nonnegative (nonnegative_int n)
unfolding nonnegative_int
nonnegative_int-Nonnegative none = tt
nonnegative_int-Nonnegative (some (negsuc n)) = tt
nonnegative_int-Nonnegative (some (pos n)) = omega arith

pub whole_seconds-Nonnegative : (now t : Time) → pos 0 ≤ℤ whole_seconds now t
unfolding whole_seconds
whole_seconds-Nonnegative now t = omega arith

age_of-Nonnegative : (now : Time) (t : Option Time) → Nonnegative (age_of now t)
age_of-Nonnegative now none = tt
age_of-Nonnegative now (some t) = whole_seconds-Nonnegative now t

or_seconds-Nonnegative :
    (m n : Option ℤ) → Nonnegative m → Nonnegative n → Nonnegative (or_seconds m n)
or_seconds-Nonnegative none n h k = k
or_seconds-Nonnegative (some m) n h k = h

pub goal_duration-Nonnegative :
    (now : Time) (used : Option ℤ) (started : Option Time)
    → Nonnegative (goal_duration now used started)
unfolding goal_duration
goal_duration-Nonnegative now used started =
    or_seconds-Nonnegative (nonnegative_int used) (age_of now started)
      (nonnegative_int-Nonnegative used) (age_of-Nonnegative now started)
