-- ===== src/Prelude/Pointers.antt =====
-- Copies through pointers and slices, and that they hold the values of their source.
use mathlib.Core.Path.{◌≡◌, refl, ap}
use mathlib.Core.Option.{Option, none, some}
use mathlib.Core.List.{List, [], ◌∷◌}

-- `if p != nil { value := copy(*p); p = &value }`
abbrev pub clone_with {ℓ} : {A : Type ℓ} → (A → A) → Option A → Option A
clone_with f none = none
clone_with f (some a) = some (f a)

unfoldable pub copy {ℓ} : {A : Type ℓ} → Option A → Option A
copy none = none
copy (some a) = some a

-- `make` a slice of the same length and clone each item into it.
abbrev pub clone_each {ℓ} : {A : Type ℓ} → (A → A) → List A → List A
clone_each f [] = []
clone_each f (x ∷ xs) = f x ∷ clone_each f xs

pub clone_with-id {ℓ} :
    {A : Type ℓ} (f : A → A) → ((a : A) → f a ≡ a) → (o : Option A) → clone_with f o ≡ o
clone_with-id f h none = refl
clone_with-id f h (some a) = ap some (h a)

pub clone_each-id {ℓ} :
    {A : Type ℓ} (f : A → A) → ((a : A) → f a ≡ a) → (l : List A) → clone_each f l ≡ l
clone_each-id f h [] = refl
clone_each-id f h (x ∷ xs) = λ i. h x i ∷ clone_each-id f h xs i

pub copy-eq {ℓ} : {A : Type ℓ} (o : Option A) → copy o ≡ o
unfolding copy
copy-eq none = refl
copy-eq (some a) = refl
