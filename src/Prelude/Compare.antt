-- ===== src/Prelude/Compare.antt =====
-- Python's comparison of numbers, of texts and of tuples.
use oss.Prelude.{ℕ, Bool, true, false, List, [], ◌∷◌, ◌≡◌, refl, ltb, ◌==◌, if◌then◌else◌, arith}
use oss.Prelude.Text.{Text}

pub data Comparison : Type 0 where
  below same above : Comparison

-- The second comparison decides where the first finds no difference.
abbrev pub and_then : Comparison → Comparison → Comparison
and_then below c = below
and_then same c = c
and_then above c = above

abbrev pub compare_numbers : ℕ → ℕ → Comparison
compare_numbers a b = if ltb a b then below else if a == b then same else above

module _ {ℓ} {A : Type ℓ} (compare : A → A → Comparison) where
  unfoldable pub compare_lists : List A → List A → Comparison
  compare_lists [] [] = same
  compare_lists [] (b ∷ y) = below
  compare_lists (a ∷ x) [] = above
  compare_lists (a ∷ x) (b ∷ y) = and_then (compare a b) (compare_lists x y)

abbrev pub compare_texts : Text → Text → Comparison
compare_texts = compare_lists compare_numbers

abbrev pub at_most : Comparison → Bool
at_most above = false
at_most _ = true

-- Of two texts one is at most the other.
pub compare_texts-total :
    (x y : Text) → at_most (compare_texts x y) ≡ false → at_most (compare_texts y x) ≡ true
unfolding compare_lists
compare_texts-total [] [] h = refl
compare_texts-total [] (b ∷ y) h = absurd (cc)
compare_texts-total (a ∷ x) [] h = refl
compare_texts-total (a ∷ x) (b ∷ y) h = ground (arith, compare_texts-total x y)

pub compare_texts-same : (x y : Text) → compare_texts x y ≡ same → x ≡ y
unfolding compare_lists
compare_texts-same [] [] h = refl
compare_texts-same [] (b ∷ y) h = absurd (cc)
compare_texts-same (a ∷ x) [] h = absurd (cc)
compare_texts-same (a ∷ x) (b ∷ y) h = ground (arith, compare_texts-same x y)
