-- ===== src/Routing/Selection.antt =====
-- `select_best_path` finds the first supporting candidate of least score.
use quipnet.Base.{
  ℕ, ◌≡◌, refl, inl, inr, ◌≤◌, ◌<◌, Bool, true, Option, none, some, List, [], ◌∷◌, ◌++◌, arith,
  keep, All, ltb, if◌then◌else◌, Bool-cases, ap, ◌∙◌,
}
use quipnet.Model.{TrafficClass}
use quipnet.Routing.{
  PathCandidate, PathDecision, supports_class, score, explain, min_from, min_by_key,
  select_best_path,
}

module _ {A : Type 0} (key : A → ℕ) where
  -- `best` is the first element of least key: those before it have more, those after it no less.
  abbrev pub IsFirstLeast : List A → A → Type 0
  IsFirstLeast xs best =
      (pre : List A) × (post : List A) × (xs ≡ pre ++ best ∷ post)
      × All (λ a. key best < key a) pre
      × All (λ a. key best ≤ key a) post

  min_from-le : (b : A) (xs : List A) → key (min_from key b xs) ≤ key b
  unfolding min_from
  min_from-le b [] = omega arith
  min_from-le b (x ∷ xs) = ground (arith, min_from-le x xs, min_from-le b xs)

  IsFirstLeast-skip :
      (b x best : A) (xs pre post : List A)
      → key b ≤ key x
      → b ∷ xs ≡ pre ++ best ∷ post
      → All (λ a. key best < key a) pre
      → All (λ a. key best ≤ key a) post
      → IsFirstLeast (b ∷ x ∷ xs) best
  IsFirstLeast-skip b x best xs [] post l e h k = ([], x ∷ post, cc, tt, (ground arith, k))
  IsFirstLeast-skip b x best xs (p ∷ pre) post l e h k =
      (b ∷ x ∷ pre, post, cc, (ground arith, (ground arith, h.1)), k)

  pub min_from-IsFirstLeast : (b : A) (xs : List A) → IsFirstLeast (b ∷ xs) (min_from key b xs)
  unfolding min_from
  min_from-IsFirstLeast b [] = ([], [], refl, tt, tt)
  min_from-IsFirstLeast b (x ∷ xs) = elim (Bool-cases (ltb (key x) (key b))) [
    | inl less ↦
        let (pre, post, e, h, k) = min_from-IsFirstLeast x xs in
        rw less (b ∷ pre, post, ap (◌∷◌ b) e, (ground (arith, min_from-le x xs), h), k)
    | inr more ↦
        let (pre, post, e, h, k) = min_from-IsFirstLeast b xs in
        rw more (IsFirstLeast-skip b x _ xs pre post (ground arith) e h k)
  ]

-- A split of the elements that `keep` keeps is one of the whole list.
keep-split {ℓ} :
    {A : Type ℓ} (p : A → Bool) (xs pre post : List A) (a : A)
    → keep p xs ≡ pre ++ a ∷ post
    → (front : List A) × (back : List A) × (xs ≡ front ++ a ∷ back)
      × (keep p front ≡ pre)
      × (keep p back ≡ post)
      × (p a ≡ true)
keep-split p [] [] post a e = cc
keep-split p [] (x ∷ pre) post a e = cc
keep-split p (x ∷ xs) [] post a e = elim (Bool-cases (p x)) [
  | inl kept ↦ ([], xs, ground arith, refl, ground arith, ground arith)
  | inr cut ↦
      let (front, back, eq, l, r, t) = keep-split p xs [] post a (ground arith) in
      (x ∷ front, back, ap (◌∷◌ x) eq, rw (cut, if◌then◌else◌) l, r, t)
]
keep-split p (x ∷ xs) (y ∷ pre) post a e = elim (Bool-cases (p x)) [
  | inl kept ↦
      let (front, back, eq, l, r, t) = keep-split p xs pre post a (ground arith) in
      (x ∷ front, back, ap (◌∷◌ x) eq, ground arith, r, t)
  | inr cut ↦
      let (front, back, eq, l, r, t) = keep-split p xs (y ∷ pre) post a (ground arith) in
      (x ∷ front, back, ap (◌∷◌ x) eq, rw (cut, if◌then◌else◌) l, r, t)
]

module _ {F : Type 0} (scaled : F → ℕ → ℕ) (at_least_one : F → Bool) where
  -- What the choice among `candidates` for `class` has to be.
  pub data Choice (candidates : List (PathCandidate F)) (class : TrafficClass)
      : Option (PathDecision F) → Type 0 where
    nobody : keep (λ c. supports_class c class) candidates ≡ [] → Choice candidates class none
    chosen :
        (d : PathDecision F) (pre post : List (PathCandidate F))
        → candidates ≡ pre ++ d.selected ∷ post
        → supports_class d.selected class ≡ true
        → All
            (λ c. score scaled d.selected class < score scaled c class)
            (keep (λ c. supports_class c class) pre)
        → All
            (λ c. score scaled d.selected class ≤ score scaled c class)
            (keep (λ c. supports_class c class) post)
        → d.class ≡ class
        → d.explanation ≡ explain scaled at_least_one d.selected class
        → Choice candidates class (some d)

  -- `select_best_path` answers `none` exactly when no candidate supports the class. Otherwise it
  -- decides for a supporting candidate of the list such that every supporting candidate before it
  -- scores more and none after it scores less, and explains that candidate.
  pub select_best_path-Choice :
      (candidates : List (PathCandidate F)) (class : TrafficClass)
      → Choice candidates class (select_best_path scaled at_least_one candidates class)
  unfolding select_best_path
  select_best_path-Choice candidates class = go (keep (λ c. supports_class c class) candidates) refl
    where
      go :
          (kept : List (PathCandidate F))
          → keep (λ c. supports_class c class) candidates ≡ kept
          → Choice candidates class (elim (min_by_key (λ c. score scaled c class) kept) [
            | none ↦ none
            | some selected ↦ some (record {
              selected = selected;
              class = class;
              explanation = explain scaled at_least_one selected class;
            })
          ])
      go [] e = nobody e
      go (b ∷ xs) e =
          let (pre, post, eq, h, k) = min_from-IsFirstLeast (λ c. score scaled c class) b xs in
          let (front, back, eq', l, r, t) =
            keep-split (λ c. supports_class c class) candidates pre post _ (e ∙ eq) in
          chosen _ front back eq' t (rw l h) (rw r k) refl refl
