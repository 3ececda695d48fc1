-- ===== src/Prelude/Trim.antt =====
-- Functions of Go's package strings, from texts to texts.
use Prim.Native.Char.{Char, code}
use Prim.Native.Nat.{ℕ, ◌-◌, ◌≤◌}
use Prim.Native.String.{String, ◌++◌ as str_append}
use text.Mathlib.Text.{◌==◌ as str_eq}
use mathlib.Core.Bool.{Bool, true, false, not, ◌&&◌}
use Prim.Native.String.append.{cons as append_cons}
use mathlib.Core.Path.{◌≡◌, refl, ap, ◌∙◌}
use mathlib.Core.Logic.{◌≢◌, ◌⊎◌, inl, inr}
use native.Mathlib.Omega.{arith}
use ai_control_hud.Prelude.Tests.{ltb, ◌==◌, if◌then◌else◌, Bool-cases}
use ai_control_hud.Prelude.Text.{is_space, size}
use mathlib.Core.List.{List, [], ◌∷◌}

-- strings.TrimSpace and strings.TrimRight, with the characters to take off given by a test.
trim_start : (ℕ → Bool) → String → String
trim_start p String.[] = String.[]
trim_start p (String.◌∷◌ c s) = if p (code c) then trim_start p s else String.◌∷◌ c s

put_before : (ℕ → Bool) → Char → String → String
put_before p c String.[] = if p (code c) then String.[] else String.◌∷◌ c String.[]
put_before p c (String.◌∷◌ d s) = String.◌∷◌ c (String.◌∷◌ d s)

unfoldable pub trim_end : (ℕ → Bool) → String → String
unfolding put_before
trim_end p String.[] = String.[]
trim_end p (String.◌∷◌ c s) = put_before p c (trim_end p s)

unfoldable pub trim_with : (ℕ → Bool) → String → String
unfolding trim_start trim_end
trim_with p s = trim_end p (trim_start p s)

unfoldable pub trim_text : String → String
unfolding trim_with is_space
trim_text s = trim_with is_space s

-- strings.FieldsFunc: `current` is the field so far.
fields_from : (ℕ → Bool) → String → String → List String
fields_from p String.[] current = if str_eq current "" then [] else current ∷ []
fields_from p (String.◌∷◌ c s) current = elim (p (code c)) [
  | true ↦ let rest = fields_from p s "" in if str_eq current "" then rest else current ∷ rest
  | false ↦ fields_from p s (str_append current (String.◌∷◌ c String.[]))
]

unfoldable pub fields : (ℕ → Bool) → String → List String
unfolding fields_from
fields p s = fields_from p s ""

-- strings.HasPrefix
unfoldable pub has_prefix : String → String → Bool
has_prefix s String.[] = true
has_prefix String.[] (String.◌∷◌ p ps) = false
has_prefix (String.◌∷◌ c s) (String.◌∷◌ p ps) = code c == code p && has_prefix s ps

-- `s[:n]`, of which Go keeps n bytes. The first bytes of a character that does not fit are left
-- out here, since they are no text.
unfoldable pub cut : ℕ → String → String
cut n String.[] = String.[]
cut n (String.◌∷◌ c s) =
    let rest = cut (n - size (code c ∷ [])) s in
    if ltb n (size (code c ∷ [])) then String.[] else String.◌∷◌ c rest

-- A text that begins with a character which the test does not take.
abbrev pub led : (ℕ → Bool) → String → Bool
led p String.[] = false
led p (String.◌∷◌ c s) = not (p (code c))

pub led-ne : (p : ℕ → Bool) (s : String) → led p s ≡ true → s ≢ ""
led-ne p s h e = let same : led p s ≡ false = ap (led p) e in cc

trim_start-led :
    (p : ℕ → Bool) (s : String) → (trim_start p s ≡ "") ⊎ (led p (trim_start p s) ≡ true)
unfolding trim_start
trim_start-led p String.[] = inl refl
trim_start-led p (String.◌∷◌ c s) = elim (Bool-cases (p (code c))) [
  | inl off ↦ rw off (trim_start-led p s)
  | inr kept ↦ inr (rw kept (ap not kept))
]

trim_start-id : (p : ℕ → Bool) (s : String) → led p s ≡ true → trim_start p s ≡ s
unfolding trim_start
trim_start-id p String.[] h = refl
trim_start-id p (String.◌∷◌ c s) h = ground arith

put_before-led :
    (p : ℕ → Bool) (c : Char) (s : String) → p (code c) ≡ false → led p (put_before p c s) ≡ true
unfolding put_before
put_before-led p c String.[] h = rw h (ap not h)
put_before-led p c (String.◌∷◌ d s) h = ap not h

trim_end-led : (p : ℕ → Bool) (s : String) → led p s ≡ true → led p (trim_end p s) ≡ true
unfolding trim_end
trim_end-led p String.[] h = h
trim_end-led p (String.◌∷◌ c s) h = put_before-led p c (trim_end p s) (ground arith)

pub trim_text-led : (s : String) → (trim_text s ≡ "") ⊎ (led is_space (trim_text s) ≡ true)
unfolding trim_text trim_with
trim_text-led s = elim (trim_start-led is_space s) [
  | inl gone ↦ inl (rw gone refl)
  | inr h ↦ inr (trim_end-led is_space (trim_start is_space s) h)
]

-- Trimming leaves a text that begins with no space as one.
pub led-trim_text : (s : String) → led is_space s ≡ true → led is_space (trim_text s) ≡ true
unfolding trim_text trim_with
led-trim_text s h =
    trim_end-led is_space (trim_start is_space s) (rw (trim_start-id is_space s h) h)

-- No character takes more than four bytes.
pub cut-led : (p : ℕ → Bool) (n : ℕ) (s : String) → 4 ≤ n → led p s ≡ true → led p (cut n s) ≡ true
unfolding cut size
cut-led p n String.[] k h = h
cut-led p n (String.◌∷◌ c s) k h = ground arith

pub append-led : (p : ℕ → Bool) (s t : String) → led p s ≡ true → led p (str_append s t) ≡ true
append-led p String.[] t h = absurd (cc)
append-led p (String.◌∷◌ c s) t h = ap (led p) (append_cons c s t) ∙ h
