-- ===== src/Base/Sets.antt =====
-- `sort` followed by `dedup`, and so the elements of a `BTreeSet<String>` in order.
use mathlib.Core.Bool.{Bool, true, false, ◌||◌}
use mathlib.Core.List.{List, [], ◌∷◌}
use mathlib.Core.Logic.{◌↔◌, inl, inr}
use mathlib.Core.Path.{◌≡◌, refl, sym, ◌∙◌, ap, subst}
use native.Mathlib.Omega.{arith}
use quipnet.Base.Tests.{◌==◌, if◌then◌else◌, Bool-cases}
use quipnet.Base.ByteStrings.{
  Bytes, bytes_eq, bytes_lt, bytes_lt_trans, bytes_lt_irrefl, eq_of_not_bytes_lt,
}
use quipnet.Base.Lists.{any}

insert_sorted : Bytes → List Bytes → List Bytes
insert_sorted x [] = x ∷ []
insert_sorted x (y ∷ ys) = if bytes_lt y x then y ∷ insert_sorted x ys else x ∷ y ∷ ys

unfoldable pub sort : List Bytes → List Bytes
unfolding insert_sorted
sort [] = []
sort (x ∷ xs) = insert_sorted x (sort xs)

dedup_after : Bytes → List Bytes → List Bytes
dedup_after x [] = []
dedup_after x (y ∷ ys) = elim (y == x) [ true ↦ dedup_after x ys | false ↦ y ∷ dedup_after y ys ]

unfoldable pub dedup : List Bytes → List Bytes
unfolding dedup_after
dedup [] = []
dedup (x ∷ xs) = x ∷ dedup_after x xs

unfoldable pub sorted_set : List Bytes → List Bytes
unfolding sort dedup
sorted_set xs = dedup (sort xs)

abbrev pub contains : Bytes → List Bytes → Bool
contains a = any (λ x. x == a)

abbrev Above : Bytes → List Bytes → Type 0
Above x [] = Unit {0}
Above x (y ∷ ys) = (bytes_lt x y ≡ true) × Above y ys

-- Strictly rising.
abbrev pub Rises : List Bytes → Type 0
Rises [] = Unit {0}
Rises (x ∷ xs) = Above x xs

abbrev From : Bytes → List Bytes → Type 0
From x [] = Unit {0}
From x (y ∷ ys) = (bytes_lt y x ≡ false) × From y ys

abbrev Ascends : List Bytes → Type 0
Ascends [] = Unit {0}
Ascends (x ∷ xs) = From x xs

not_both : (x y : Bytes) → bytes_lt x y ≡ true → bytes_lt y x ≡ false
not_both x y h = elim (Bool-cases (bytes_lt y x)) [
  | inl k ↦ cc (bytes_lt_trans x y x h k, bytes_lt_irrefl x)
  | inr k ↦ k
]

From-insert_sorted :
    (w x : Bytes) (ys : List Bytes) → bytes_lt x w ≡ false → From w ys → From w (insert_sorted x ys)
unfolding insert_sorted
From-insert_sorted w x [] h f = (h, tt)
From-insert_sorted w x (y ∷ ys) h f = elim (Bool-cases (bytes_lt y x)) [
  | inl k ↦ rw k (f.0, From-insert_sorted y x ys (not_both y x k) f.1)
  | inr k ↦ rw k (h, (k, f.1))
]

Ascends-insert_sorted : (x : Bytes) (ys : List Bytes) → Ascends ys → Ascends (insert_sorted x ys)
unfolding insert_sorted
Ascends-insert_sorted x [] h = tt
Ascends-insert_sorted x (y ∷ ys) h = elim (Bool-cases (bytes_lt y x)) [
  | inl k ↦ rw k (From-insert_sorted y x ys (not_both y x k) h)
  | inr k ↦ rw k (k, h)
]

Ascends-sort : (xs : List Bytes) → Ascends (sort xs)
unfolding sort
Ascends-sort [] = tt
Ascends-sort (x ∷ xs) = Ascends-insert_sorted x (sort xs) (Ascends-sort xs)

Above-dedup_after : (x : Bytes) (ys : List Bytes) → From x ys → Above x (dedup_after x ys)
unfolding dedup_after
Above-dedup_after x [] h = tt
Above-dedup_after x (y ∷ ys) h = elim (bytes_eq.dec y x) [
  | yes p ↦ ground (arith, Above-dedup_after x ys)
  | no n ↦ ground (arith, eq_of_not_bytes_lt x y, Above-dedup_after y ys h.1)
]

pub sorted_set-Rises : (xs : List Bytes) → Rises (sorted_set xs)
unfolding sorted_set
sorted_set-Rises xs = go (sort xs) (Ascends-sort xs)
  where
    go : (ys : List Bytes) → Ascends ys → Rises (dedup ys)
    go [] h = tt
    go (y ∷ ys) h = Above-dedup_after y ys h

contains-insert_sorted :
    (a x : Bytes) (ys : List Bytes) → contains a (insert_sorted x ys) ≡ contains a (x ∷ ys)
unfolding insert_sorted
contains-insert_sorted a x [] = refl
contains-insert_sorted a x (y ∷ ys) = ground (arith, contains-insert_sorted a x ys)

contains-sort : (a : Bytes) (xs : List Bytes) → contains a (sort xs) ≡ contains a xs
unfolding sort
contains-sort a [] = refl
contains-sort a (x ∷ xs) =
    contains-insert_sorted a x (sort xs) ∙ ap (λ b. (x == a) || b) (contains-sort a xs)

contains-dedup_after :
    (a x : Bytes) (ys : List Bytes)
    → ((x == a) || contains a (dedup_after x ys)) ≡ ((x == a) || contains a ys)
unfolding dedup_after
contains-dedup_after a x [] = refl
contains-dedup_after a x (y ∷ ys) =
    ground (arith, contains-dedup_after a x ys, contains-dedup_after a y ys)

-- Sorting and removing repetitions keeps the elements.
pub contains-sorted_set : (a : Bytes) (xs : List Bytes) → contains a (sorted_set xs) ≡ contains a xs
unfolding sorted_set
contains-sorted_set a xs = go (sort xs) ∙ contains-sort a xs
  where
    go : (ys : List Bytes) → contains a (dedup ys) ≡ contains a ys
    go [] = refl
    go (y ∷ ys) = contains-dedup_after a y ys

Above-trans : (x y : Bytes) (ys : List Bytes) → bytes_lt x y ≡ true → Above y ys → Above x ys
Above-trans x y [] h k = tt
Above-trans x y (z ∷ zs) h k = (bytes_lt_trans x y z h k.0, k.1)

not-contains_of_Above : (x : Bytes) (ys : List Bytes) → Above x ys → contains x ys ≡ false
not-contains_of_Above x [] h = refl
not-contains_of_Above x (y ∷ ys) h =
    ground (arith, bytes_lt_irrefl x, not-contains_of_Above x ys (Above-trans x y ys h.0 h.1))

tail_Rises : (x : Bytes) (xs : List Bytes) → Above x xs → Rises xs
tail_Rises x [] h = tt
tail_Rises x (y ∷ ys) h = h.1

contains-head : (x : Bytes) (xs : List Bytes) → contains x (x ∷ xs) ≡ true
contains-head x xs = ground arith

same_tail :
    (x : Bytes) (xs ys : List Bytes)
    → Above x xs
    → Above x ys
    → ((a : Bytes) → contains a (x ∷ xs) ≡ contains a (x ∷ ys))
    → (a : Bytes) → contains a xs ≡ contains a ys
same_tail x xs ys h k same a = elim (bytes_eq.dec x a) [
  | yes p ↦ ground (arith, not-contains_of_Above x xs h, not-contains_of_Above x ys k)
  | no n ↦ ground (arith, same a)
]

-- Rising lists with the same elements are equal.
pub Rises-ext :
    (xs ys : List Bytes)
    → Rises xs
    → Rises ys
    → ((a : Bytes) → contains a xs ≡ contains a ys)
    → xs ≡ ys
Rises-ext [] [] h k same = refl
Rises-ext [] (y ∷ ys) h k same = cc (same y, contains-head y ys)
Rises-ext (x ∷ xs) [] h k same = cc (same x, contains-head x xs)
Rises-ext (x ∷ xs) (y ∷ ys) h k same = elim (Bool-cases (bytes_lt x y)) [
  | inl l ↦ cc (same x, not-contains_of_Above x (y ∷ ys) (l, k), contains-head x xs)
  | inr l ↦ elim (Bool-cases (bytes_lt y x)) [
    | inl m ↦ cc (same y, not-contains_of_Above y (x ∷ xs) (m, h), contains-head y ys)
    | inr m ↦
        let e : x ≡ y = eq_of_not_bytes_lt x y l m in
        let k' : Above x ys = subst (λ z. Above z ys) (sym e) k in
        let same' : (a : Bytes) → contains a (x ∷ xs) ≡ contains a (x ∷ ys) =
          λ a. same a ∙ ap (λ z. contains a (z ∷ ys)) (sym e) in
        cc (
          e,
          Rises-ext xs ys (tail_Rises x xs h) (tail_Rises x ys k') (same_tail x xs ys h k' same'),
        )
  ]
]

-- Two lists have the same sorted set exactly if they have the same elements.
pub sorted_set_iff :
    (xs ys : List Bytes)
    → (sorted_set xs ≡ sorted_set ys) ↔ ((a : Bytes) → contains a xs ≡ contains a ys)
sorted_set_iff xs ys = (
  λ e a. sym (contains-sorted_set a xs) ∙ (ap (contains a) e ∙ contains-sorted_set a ys),
  λ same.
      Rises-ext (sorted_set xs) (sorted_set ys) (sorted_set-Rises xs) (sorted_set-Rises ys)
        λ a. contains-sorted_set a xs ∙ (same a ∙ sym (contains-sorted_set a ys)),
)
