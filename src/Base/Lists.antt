-- ===== src/Base/Lists.antt =====
-- Lists: `Iterator::find`, `any`, `filter`, `take` and lengths over the native numbers.
use Prim.Native.Nat.{ℕ, zero, suc, ◌+◌, ◌-◌, ◌≤◌, min}
use mathlib.Core.Path.{◌≡◌, refl, ap, sym, ◌∙◌, subst}
use mathlib.Core.Logic.{inl, inr}
use mathlib.Core.Bool.{Bool, true, false, ◌&&◌, ◌||◌}
use mathlib.Core.List.{List, [], ◌∷◌, ◌++◌, Memᴰ}
use mathlib.Core.List.Memᴰ
use mathlib.Core.Option.{Option, none, some}
use native.Mathlib.Omega.{arith}
use quipnet.Base.Tests.{if◌then◌else◌, Bool-cases}

module _ {ℓ} {A : Type ℓ} where
  abbrev pub length : List A → ℕ
  length [] = 0
  length (x ∷ xs) = suc (length xs)

  abbrev pub any : (A → Bool) → List A → Bool
  any p [] = false
  any p (x ∷ xs) = p x || any p xs

  abbrev pub all : (A → Bool) → List A → Bool
  all p [] = true
  all p (x ∷ xs) = p x && all p xs

  abbrev pub find : (A → Bool) → List A → Option A
  find p [] = none
  find p (x ∷ xs) = if p x then some x else find p xs

  abbrev pub keep : (A → Bool) → List A → List A
  keep p [] = []
  keep p (x ∷ xs) = if p x then x ∷ keep p xs else keep p xs

  abbrev pub first : List A → Option A
  first [] = none
  first (x ∷ xs) = some x

  abbrev pub take : ℕ → List A → List A
  take zero xs = []
  take (suc n) [] = []
  take (suc n) (x ∷ xs) = x ∷ take n xs

  abbrev pub drop : ℕ → List A → List A
  drop zero xs = xs
  drop (suc n) [] = []
  drop (suc n) (x ∷ xs) = drop n xs

  pub length-append : (xs ys : List A) → length (xs ++ ys) ≡ length xs + length ys
  length-append [] ys = omega arith
  length-append (x ∷ xs) ys = omega (arith, length-append xs ys)

  pub length-take : (n : ℕ) (xs : List A) → length (take n xs) ≡ min n (length xs)
  length-take zero xs = omega arith
  length-take (suc n) [] = omega arith
  length-take (suc n) (x ∷ xs) = omega (arith, length-take n xs)

  pub length-drop : (n : ℕ) (xs : List A) → length (drop n xs) ≡ length xs - n
  length-drop zero xs = omega arith
  length-drop (suc n) [] = omega arith
  length-drop (suc n) (x ∷ xs) = omega (arith, length-drop n xs)

  pub length-keep-le : (p : A → Bool) (xs : List A) → length (keep p xs) ≤ length xs
  length-keep-le p [] = omega arith
  length-keep-le p (x ∷ xs) = ground (arith, length-keep-le p xs)

  pub take-append_self : (xs ys : List A) → take (length xs) (xs ++ ys) ≡ xs
  take-append_self [] ys = refl
  take-append_self (x ∷ xs) ys = ap (◌∷◌ x) (take-append_self xs ys)

module _ {ℓ κ} {A : Type ℓ} (P : A → Type κ) where
  -- Every element satisfies `P`.
  abbrev pub All : List A → Type κ
  All [] = Unit
  All (x ∷ xs) = P x × All xs

  pub All-append : (xs ys : List A) → All xs → All ys → All (xs ++ ys)
  All-append [] ys h k = k
  All-append (x ∷ xs) ys h k = (h.0, All-append xs ys h.1 k)

  pub All-drop : (n : ℕ) (xs : List A) → All xs → All (drop n xs)
  All-drop zero xs h = h
  All-drop (suc n) [] h = tt
  All-drop (suc n) (x ∷ xs) h = All-drop n xs h.1

  pub All-keep : (p : A → Bool) (xs : List A) → All xs → All (keep p xs)
  All-keep p [] h = tt
  All-keep p (x ∷ xs) h = ground (arith, All-keep p xs h.1)

module _ {ℓ} {A : Type ℓ} (p : A → Bool) where
  pub any_sound : (xs : List A) → any p xs ≡ true → (x : A) × Memᴰ x xs × (p x ≡ true)
  any_sound [] h = cc
  any_sound (x ∷ xs) h = elim (Bool-cases (p x)) [
    | inl t ↦ (x, Memᴰ.head refl, t)
    | inr f ↦ let (y, m, t) = any_sound xs (ground arith) in (y, Memᴰ.tail m, t)
  ]

  pub any_complete : {x : A} {xs : List A} → Memᴰ x xs → p x ≡ true → any p xs ≡ true
  any_complete (Memᴰ.head e) h = ground arith
  any_complete (Memᴰ.tail m) h = ground (arith, any_complete m h)

  -- The element that `find` answers stands in the list and passes the test.
  pub find_sound : (xs : List A) {x : A} → find p xs ≡ some x → Memᴰ x xs × (p x ≡ true)
  find_sound [] h = cc
  find_sound (y ∷ xs) h = elim (Bool-cases (p y)) [
    | inl t ↦ (Memᴰ.head (ground arith), ground arith)
    | inr f ↦ let (m, t) = find_sound xs (ground arith) in (Memᴰ.tail m, t)
  ]

module _ {ℓ κ} {A : Type ℓ} (P : A → Type κ) where
  pub All-mem : {x : A} {xs : List A} → Memᴰ x xs → All P xs → P x
  All-mem (Memᴰ.head e) h = rw e h.0
  All-mem (Memᴰ.tail m) h = All-mem m h.1

  pub All-of_mem : (xs : List A) → ((x : A) → Memᴰ x xs → P x) → All P xs
  All-of_mem [] h = tt
  All-of_mem (x ∷ xs) h = (h x (Memᴰ.head refl), All-of_mem xs (λ y m. h y (Memᴰ.tail m)))

module _ {ℓ} {A : Type ℓ} (p : A → Bool) where
  pub keep_sound : (xs : List A) {x : A} → Memᴰ x (keep p xs) → Memᴰ x xs × (p x ≡ true)
  keep_sound [] m = absurd (Memᴰ.not-nil m)
  keep_sound (y ∷ ys) m = elim (Bool-cases (p y)) [
    | inl t ↦ kept (keep_sound ys) t (subst (Memᴰ _) (ground (arith, t)) m)
    | inr f ↦ let (k, h) = keep_sound ys (subst (Memᴰ _) (ground (arith, f)) m) in (Memᴰ.tail k, h)
  ]
    where
      kept :
          {x : A}
          → (Memᴰ x (keep p ys) → Memᴰ x ys × (p x ≡ true))
          → p y ≡ true
          → Memᴰ x (y ∷ keep p ys)
          → Memᴰ x (y ∷ ys) × (p x ≡ true)
      kept below t (Memᴰ.head e) = (Memᴰ.head e, ground (arith, t, e))
      kept below t (Memᴰ.tail k) = let (j, h) = below k in (Memᴰ.tail j, h)

  pub keep_complete : {x : A} (xs : List A) → Memᴰ x xs → p x ≡ true → Memᴰ x (keep p xs)
  keep_complete [] m h = absurd (Memᴰ.not-nil m)
  keep_complete (y ∷ ys) (Memᴰ.head e) h =
      let t : p y ≡ true = sym (ap p e) ∙ h in rw t (Memᴰ.head e)
  keep_complete (y ∷ ys) (Memᴰ.tail m) h = elim (Bool-cases (p y)) [
    | inl t ↦ rw t (Memᴰ.tail (keep_complete ys m h))
    | inr f ↦ rw f (keep_complete ys m h)
  ]
