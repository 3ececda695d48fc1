-- ===== src/Prelude/Text.antt =====
-- Go strings as native texts: `len` (bytes of UTF-8) and `strings.TrimSpace`.
use Prim.Native.Nat.{ℕ, ◌+◌, ◌≤◌}
use Prim.Native.Char.{code}
use Prim.Native.String.{String}
use mathlib.Core.Bool.{Bool, ◌&&◌, ◌||◌}
use mathlib.Core.List.{List, [], ◌∷◌}
use native.Mathlib.Omega.{arith}
use ai_control_hud.Prelude.Tests.{ltb, leb, ◌==◌, if◌then◌else◌}

-- The code points of a text.
abbrev pub codes : String → List ℕ
codes String.[] = []
codes (String.◌∷◌ c s) = code c ∷ codes s

-- The bytes that UTF-8 takes for a code point.
width : ℕ → ℕ
width c = if ltb c 128 then 1 else if ltb c 2048 then 2 else if ltb c 65536 then 3 else 4

-- `len(s)` of a text given by its code points.
unfoldable pub size : List ℕ → ℕ
unfolding width
size [] = 0
size (c ∷ cs) = width c + size cs

-- `unicode.IsSpace`: the spaces of Latin-1 and those of the property White_Space.
unfoldable pub is_space : ℕ → Bool
is_space c =
    (leb 9 c && leb c 13)
    || c == 32
    || c == 133
    || c == 160
    || c == 5760
    || (leb 8192 c && leb c 8202)
    || c == 8232
    || c == 8233
    || c == 8239
    || c == 8287
    || c == 12288

trim_left : List ℕ → List ℕ
trim_left [] = []
trim_left (c ∷ cs) = if is_space c then trim_left cs else c ∷ cs

prepend : ℕ → List ℕ → List ℕ
prepend c [] = if is_space c then [] else c ∷ []
prepend c (d ∷ ds) = c ∷ d ∷ ds

trim_right : List ℕ → List ℕ
unfolding prepend
trim_right [] = []
trim_right (c ∷ cs) = prepend c (trim_right cs)

-- `strings.TrimSpace`.
unfoldable pub trim : List ℕ → List ℕ
unfolding trim_left trim_right is_space
trim cs = trim_right (trim_left cs)

size-prepend : (c : ℕ) (cs : List ℕ) → size (prepend c cs) ≤ width c + size cs
unfolding prepend size
size-prepend c [] = ground arith
size-prepend c (d ∷ ds) = omega arith

size-trim_right : (cs : List ℕ) → size (trim_right cs) ≤ size cs
unfolding trim_right size
size-trim_right [] = omega arith
size-trim_right (c ∷ cs) = omega (arith, size-trim_right cs, size-prepend c (trim_right cs))

size-trim_left : (cs : List ℕ) → size (trim_left cs) ≤ size cs
unfolding trim_left size
size-trim_left [] = omega arith
size-trim_left (c ∷ cs) = ground (arith, size-trim_left cs)

pub size-trim : (cs : List ℕ) → size (trim cs) ≤ size cs
unfolding trim
size-trim cs = omega (arith, size-trim_left cs, size-trim_right (trim_left cs))
