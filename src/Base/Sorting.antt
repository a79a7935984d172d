-- ===== src/Base/Sorting.antt =====
-- `sort_by` and `sort_by_key`: stable sorting by a strict order.
use Prim.Native.Nat.{ℕ}
use mathlib.Core.Bool.{Bool}
use mathlib.Core.List.{List, [], ◌∷◌}
use quipnet.Base.Tests.{ltb, if◌then◌else◌}

module _ {ℓ} {A : Type ℓ} (lt : A → A → Bool) where
  insert_by : A → List A → List A
  insert_by x [] = x ∷ []
  insert_by x (y ∷ ys) = if lt y x then y ∷ insert_by x ys else x ∷ y ∷ ys

  unfoldable pub sort_by : List A → List A
  unfolding insert_by
  sort_by [] = []
  sort_by (x ∷ xs) = insert_by x (sort_by xs)

unfoldable pub sort_by_key {ℓ} : {A : Type ℓ} → (A → ℕ) → List A → List A
unfolding sort_by
sort_by_key key = sort_by (λ a b. ltb (key a) (key b))
