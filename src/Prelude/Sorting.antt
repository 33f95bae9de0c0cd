-- ===== src/Prelude/Sorting.antt =====
-- Python's `sorted` and `min` with a key, on an order given by a Boolean test.
use mathlib.Core.List.{Perm}
use mathlib.Core.List.Perm
use oss.Prelude.{
  ℕ, zero, suc, take, length, Bool, true, false, List, [], ◌∷◌, ◌≡◌, refl, if◌then◌else◌,
  Bool-cases, inl, inr, arith,
}

module _ {ℓ} {A : Type ℓ} (le : A → A → Bool) where
  -- An item goes behind those that it is not below, so that equal items keep their order.
  unfoldable pub insert_by : A → List A → List A
  insert_by x [] = x ∷ []
  insert_by x (y ∷ ys) = let rest = insert_by x ys in if le x y then x ∷ y ∷ ys else y ∷ rest

  unfoldable pub sort_by : List A → List A
  unfolding insert_by
  sort_by [] = []
  sort_by (x ∷ xs) = insert_by x (sort_by xs)

  -- Each item is below the one that follows it.
  abbrev pub IsSortedBy : List A → Type 0
  IsSortedBy [] = Unit
  IsSortedBy (x ∷ []) = Unit
  IsSortedBy (x ∷ y ∷ ys) = (le x y ≡ true) × IsSortedBy (y ∷ ys)

  pub insert_by-perm : (x : A) (xs : List A) → Perm (insert_by x xs) (x ∷ xs)
  unfolding insert_by
  insert_by-perm x [] = Perm.refl (x ∷ [])
  insert_by-perm x (y ∷ ys) = elim (Bool-cases (le x y)) [
    | inl h ↦ rw h (Perm.refl _)
    | inr h ↦ rw h (Perm.trans (Perm.cons y (insert_by-perm x ys)) (Perm.swap _ _ _))
  ]

  pub sort_by-perm : (xs : List A) → Perm (sort_by xs) xs
  unfolding sort_by
  sort_by-perm [] = Perm.refl []
  sort_by-perm (x ∷ xs) = Perm.trans (insert_by-perm x (sort_by xs)) (Perm.cons x (sort_by-perm xs))

  length-insert_by : (x : A) (xs : List A) → length (insert_by x xs) ≡ suc (length xs)
  unfolding insert_by
  length-insert_by x [] = refl
  length-insert_by x (y ∷ ys) = ground (arith, length-insert_by x ys)

  pub length-sort_by : (xs : List A) → length (sort_by xs) ≡ length xs
  unfolding sort_by
  length-sort_by [] = refl
  length-sort_by (x ∷ xs) = omega (arith, length-insert_by x (sort_by xs), length-sort_by xs)

  module _ (total : (x y : A) → le x y ≡ false → le y x ≡ true) where
    insert_by-IsSortedBy : (x : A) (xs : List A) → IsSortedBy xs → IsSortedBy (insert_by x xs)
    unfolding insert_by
    insert_by-IsSortedBy x [] h = tt
    insert_by-IsSortedBy x (y ∷ []) h = elim (Bool-cases (le x y)) [
      | inl a ↦ rw a (a, tt)
      | inr a ↦ rw a (total x y a, tt)
    ]
    insert_by-IsSortedBy x (y ∷ z ∷ zs) h = elim (Bool-cases (le x y)) [
      | inl a ↦ rw a (a, h)
      | inr a ↦ elim (Bool-cases (le x z)) [
        | inl b ↦ rw (a, b) (total x y a, (b, h.1))
        | inr b ↦ let ih = insert_by-IsSortedBy x (z ∷ zs) h.1 in rw (a, b) (h.0, (rw b at ih))
      ]
    ]

    pub sort_by-IsSortedBy : (xs : List A) → IsSortedBy (sort_by xs)
    unfolding sort_by
    sort_by-IsSortedBy [] = tt
    sort_by-IsSortedBy (x ∷ xs) = insert_by-IsSortedBy x (sort_by xs) (sort_by-IsSortedBy xs)

  pub take-IsSortedBy : (n : ℕ) (xs : List A) → IsSortedBy xs → IsSortedBy (take n xs)
  take-IsSortedBy zero xs h = tt
  take-IsSortedBy (suc n) [] h = tt
  take-IsSortedBy (suc zero) (x ∷ ys) h = tt
  take-IsSortedBy (suc (suc n)) (x ∷ []) h = tt
  take-IsSortedBy (suc (suc n)) (x ∷ y ∷ ys) h = (h.0, take-IsSortedBy (suc n) (y ∷ ys) h.1)
