-- ===== src/Base/Maps.antt =====
-- `BTreeMap` with byte-string keys, as the list of its entries in key order.
use Prim.Native.Nat.{◌+◌, ◌≤◌}
use mathlib.Core.Bool.{Bool, true, false}
use mathlib.Core.List.{List, [], ◌∷◌, map}
use mathlib.Core.Logic.{◌≢◌}
use mathlib.Core.Option.{Option, none, some}
use mathlib.Core.Path.{◌≡◌, refl}
use native.Mathlib.Omega.{arith}
use quipnet.Base.Tests.{◌==◌, if◌then◌else◌, Bool-cases}
use quipnet.Base.ByteStrings.{Bytes, bytes_eq, bytes_lt, eq_of_not_bytes_lt}
use quipnet.Base.Count.{count}

abbrev pub Map {ℓ} : Type ℓ → Type ℓ
Map V = List (Bytes × V)

module _ {ℓ} {V : Type ℓ} where
  unfoldable pub get : Bytes → Map V → Option V
  get k [] = none
  get k ((j, v) ∷ m) = if j == k then some v else get k m

  unfoldable pub insert : Bytes → V → Map V → Map V
  insert k v [] = (k, v) ∷ []
  insert k v ((j, w) ∷ m) =
      if j == k
      then (k, v) ∷ m
      else if bytes_lt k j
      then (k, v) ∷ (j, w) ∷ m
      else (j, w) ∷ insert k v m

  unfoldable pub remove : Bytes → Map V → Map V
  remove k [] = []
  remove k ((j, w) ∷ m) = if j == k then remove k m else (j, w) ∷ remove k m

  -- A change through `get_mut`.
  unfoldable pub update : Bytes → (V → V) → Map V → Map V
  update k f [] = []
  update k f ((j, w) ∷ m) = if j == k then (j, f w) ∷ m else (j, w) ∷ update k f m

  abbrev pub values : Map V → List V
  values = map (λ e. e.1)

  abbrev pub keys : Map V → List Bytes
  keys = map (λ e. e.0)

  abbrev pub contains_key : Bytes → Map V → Bool
  contains_key k m = elim (get k m) [ none ↦ false | some _ ↦ true ]

module _ {ℓ} {V : Type ℓ} (k j : Bytes) where
  pub get-insert : (v : V) (m : Map V) → get j (insert k v m) ≡ (if k == j then some v else get j m)
  unfolding get insert
  get-insert v [] = refl
  get-insert v ((i, w) ∷ m) = ground (arith, get-insert v m)

  pub get-remove : (m : Map V) → get j (remove k m) ≡ (if k == j then none else get j m)
  unfolding get remove
  get-remove [] = ground arith
  get-remove ((i, w) ∷ m) = ground (arith, get-remove m)

module _ {ℓ} {V : Type ℓ} (k : Bytes) (f : V → V) where
  pub get-update_self : (v : V) (m : Map V) → get k m ≡ some v → get k (update k f m) ≡ some (f v)
  unfolding get update
  get-update_self v [] h = cc
  get-update_self v ((i, w) ∷ m) h = ground (arith, get-update_self v m)

  pub get-update_ne : (j : Bytes) (m : Map V) → k ≢ j → get j (update k f m) ≡ get j m
  unfolding get update
  get-update_ne j [] h = refl
  get-update_ne j ((i, w) ∷ m) h = ground (arith, get-update_ne j m)

  pub get-update_absent : (m : Map V) → get k m ≡ none → update k f m ≡ m
  unfolding get update
  get-update_absent [] h = refl
  get-update_absent ((i, w) ∷ m) h = ground (arith, get-update_absent m)

-- How the number of entries of a kind moves.
module _ {ℓ} {V : Type ℓ} (p : V → Bool) (k : Bytes) where
  pub count-insert-le :
      (v : V) (m : Map V)
      → count p (values (insert k v m)) ≤ count p (values m) + (if p v then 1 else 0)
  unfolding insert
  count-insert-le v [] = ground arith
  count-insert-le v ((i, w) ∷ m) = ground (arith, count-insert-le v m)

  pub count-update-le :
      (f : V → V) (m : Map V)
      → ((v : V) → p (f v) ≡ true → p v ≡ true)
      → count p (values (update k f m)) ≤ count p (values m)
  unfolding update
  count-update-le f [] h = omega arith
  count-update-le f ((i, w) ∷ m) h = ground (arith, h w, count-update-le f m h)

  pub count-remove-le : (m : Map V) → count p (values (remove k m)) ≤ count p (values m)
  unfolding remove
  count-remove-le [] = omega arith
  count-remove-le ((i, w) ∷ m) = ground (arith, count-remove-le m)

-- The keys rise along the list.
module _ {ℓ} {V : Type ℓ} where
  abbrev pub IsAbove : Bytes → Map V → Type 0
  IsAbove k [] = Unit {0}
  IsAbove k ((j, _) ∷ m) = (bytes_lt k j ≡ true) × IsAbove j m

  abbrev pub IsSorted : Map V → Type 0
  IsSorted [] = Unit {0}
  IsSorted ((j, _) ∷ m) = IsAbove j m

  IsAbove-insert :
      (i k : Bytes) (v : V) (m : Map V)
      → bytes_lt i k ≡ true
      → IsAbove i m
      → IsAbove i (insert k v m)
  unfolding insert
  IsAbove-insert i k v [] h s = (h, tt)
  IsAbove-insert i k v ((j, w) ∷ m) h s =
      ground (arith, IsAbove-insert j k v m, eq_of_not_bytes_lt j k, Bool-cases (bytes_lt j k))

  -- Insertion keeps the entries in key order, without a repeated key.
  pub insert-IsSorted : (k : Bytes) (v : V) (m : Map V) → IsSorted m → IsSorted (insert k v m)
  unfolding insert
  insert-IsSorted k v [] s = tt
  insert-IsSorted k v ((j, w) ∷ m) s =
      ground (arith, IsAbove-insert j k v m, eq_of_not_bytes_lt j k)
