-- ===== src/Prelude/Keyed.antt =====
-- A table with a text for its primary key, and `INSERT … ON CONFLICT(key) DO UPDATE` on it.
use Prim.Native.String.{String}
use mathlib.Core.Path.{◌≡◌, refl}
use mathlib.Core.Logic.{◌≢◌}
use mathlib.Core.Option.{Option, none, some}
use mathlib.Core.List.{List, [], ◌∷◌}
use text.Mathlib.Text.{◌==◌ as str_eq}
use text.Mathlib.TextEquality.{eq_iff}
use native.Mathlib.Omega.{arith}
use ai_control_hud.Prelude.Tests.{if◌then◌else◌}

abbrev pub Table {ℓ} : Type ℓ → Type ℓ
Table V = List (String × V)

module _ {ℓ} {V : Type ℓ} where
  -- SELECT … WHERE key = ?
  unfoldable pub lookup : String → Table V → Option V
  lookup k [] = none
  lookup k ((j, v) ∷ m) = if str_eq j k then some v else lookup k m

  -- `merge` makes the row from the one that is there, if there is one.
  unfoldable pub upsert : String → (Option V → V) → Table V → Table V
  upsert k merge [] = (k, merge none) ∷ []
  upsert k merge ((j, w) ∷ m) =
      if str_eq j k then (j, merge (some w)) ∷ m else (j, w) ∷ upsert k merge m

  pub lookup-upsert :
      (k j : String) (merge : Option V → V) (m : Table V)
      → lookup j (upsert k merge m) ≡ (if str_eq k j then some (merge (lookup k m)) else lookup j m)
  unfolding lookup upsert
  lookup-upsert k j merge [] = refl
  lookup-upsert k j merge ((i, w) ∷ m) =
      ground (arith, eq_iff k j, eq_iff i k, eq_iff i j, lookup-upsert k j merge m)

  pub lookup-upsert_self :
      (k : String) (merge : Option V → V) (m : Table V)
      → lookup k (upsert k merge m) ≡ some (merge (lookup k m))
  lookup-upsert_self k merge m = ground (arith, lookup-upsert k k merge m, eq_iff k k)

  pub lookup-upsert_ne :
      (k j : String) (merge : Option V → V) (m : Table V)
      → k ≢ j
      → lookup j (upsert k merge m) ≡ lookup j m
  lookup-upsert_ne k j merge m h = ground (arith, lookup-upsert k j merge m, eq_iff k j)
