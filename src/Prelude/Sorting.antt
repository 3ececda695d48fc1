-- ===== src/Prelude/Sorting.antt =====
-- `ORDER BY` and `sort.Slice`: insertion sort by a strict order. Items of which neither comes
-- first stay as they are, an order that SQL and Go leave open.
use mathlib.Core.Path.{◌≡◌, refl}
use mathlib.Core.Bool.{Bool, true}
use mathlib.Core.List.{List, [], ◌∷◌}
use native.Mathlib.Omega.{arith}
use ai_control_hud.Prelude.Tests.{if◌then◌else◌, Bool-cases}
use mathlib.Core.Logic.{inl, inr}
use ai_control_hud.Prelude.Lists.{All, select, count}

-- Any two items of a list are related.
abbrev pub Pairwise {ℓ κ} : {A : Type ℓ} → (A → A → Type κ) → List A → Type κ
Pairwise R [] = Unit
Pairwise R (x ∷ xs) = All (R x) xs × Pairwise R xs

All-select {ℓ κ} :
    {A : Type ℓ} (P : A → Type κ) (p : A → Bool) (xs : List A) → All P xs → All P (select p xs)
All-select P p [] h = tt
All-select P p (x ∷ xs) (h, hs) = elim (Bool-cases (p x)) [
  | inl kept ↦ rw kept (h, All-select P p xs hs)
  | inr gone ↦ rw gone (All-select P p xs hs)
]

pub All-selected {ℓ} :
    {A : Type ℓ} (p : A → Bool) (xs : List A) → All (λ x. p x ≡ true) (select p xs)
All-selected p [] = tt
All-selected p (x ∷ xs) = elim (Bool-cases (p x)) [
  | inl kept ↦ rw kept (kept, All-selected p xs)
  | inr gone ↦ rw gone (All-selected p xs)
]

pub Pairwise-select {ℓ κ} :
    {A : Type ℓ} (R : A → A → Type κ) (p : A → Bool) (xs : List A)
    → Pairwise R xs
    → Pairwise R (select p xs)
Pairwise-select R p [] h = tt
Pairwise-select R p (x ∷ xs) (h, hs) = elim (Bool-cases (p x)) [
  | inl kept ↦ rw kept (All-select (R x) p xs h, Pairwise-select R p xs hs)
  | inr gone ↦ rw gone (Pairwise-select R p xs hs)
]

module _ {ℓ} {A : Type ℓ} (first : A → A → Bool) where
  insert_by : A → List A → List A
  insert_by x [] = x ∷ []
  insert_by x (y ∷ ys) = if first y x then y ∷ insert_by x ys else x ∷ y ∷ ys

  unfoldable pub sort_by : List A → List A
  unfolding insert_by
  sort_by [] = []
  sort_by (x ∷ xs) = insert_by x (sort_by xs)

  All-insert_by {κ} :
      (P : A → Type κ) (x : A) (xs : List A) → P x → All P xs → All P (insert_by x xs)
  unfolding insert_by
  All-insert_by P x [] h hs = (h, tt)
  All-insert_by P x (y ∷ ys) h (k, ks) = elim (Bool-cases (first y x)) [
    | inl later ↦ rw later (k, All-insert_by P x ys h ks)
    | inr sooner ↦ rw sooner (h, (k, ks))
  ]

  pub All-sort_by {κ} : (P : A → Type κ) (xs : List A) → All P xs → All P (sort_by xs)
  unfolding sort_by
  All-sort_by P [] h = tt
  All-sort_by P (x ∷ xs) (h, hs) = All-insert_by P x (sort_by xs) h (All-sort_by P xs hs)

  Pairwise-insert_by {κ} :
      (R : A → A → Type κ) (x : A) (xs : List A)
      → ((a b : A) → R a b → R b a)
      → All (R x) xs
      → Pairwise R xs
      → Pairwise R (insert_by x xs)
  unfolding insert_by
  Pairwise-insert_by R x [] s h k = (tt, tt)
  Pairwise-insert_by R x (y ∷ ys) s (h, hs) (k, ks) = elim (Bool-cases (first y x)) [
    | inl later ↦ rw later (All-insert_by (R y) x ys (s x y h) k, Pairwise-insert_by R x ys s hs ks)
    | inr sooner ↦ rw sooner ((h, hs), (k, ks))
  ]

  pub Pairwise-sort_by {κ} :
      (R : A → A → Type κ) (xs : List A)
      → ((a b : A) → R a b → R b a)
      → Pairwise R xs
      → Pairwise R (sort_by xs)
  unfolding sort_by
  Pairwise-sort_by R [] s h = tt
  Pairwise-sort_by R (x ∷ xs) s (h, hs) =
      Pairwise-insert_by R x (sort_by xs) s (All-sort_by (R x) xs h) (Pairwise-sort_by R xs s hs)

  count-insert_by :
      (p : A → Bool) (x : A) (xs : List A) → count p (insert_by x xs) ≡ count p (x ∷ xs)
  unfolding insert_by
  count-insert_by p x [] = refl
  count-insert_by p x (y ∷ ys) = ground (arith, count-insert_by p x ys)

  pub count-sort_by : (p : A → Bool) (xs : List A) → count p (sort_by xs) ≡ count p xs
  unfolding sort_by
  count-sort_by p [] = refl
  count-sort_by p (x ∷ xs) = ground (arith, count-insert_by p x (sort_by xs), count-sort_by p xs)
