-- ===== src/Prelude/Text.antt =====
-- Texts as lists of code points, for the code that walks or splits them.
use Prim.Native.Char.{code}
use Prim.Native.String.{String}
use mathlib.Core.Path.{◌≡◌, refl, sym}
use mathlib.Core.Logic.{◌≢◌}
use mathlib.Core.List.{cons-eq-cons}
use oss.Prelude.{ℕ, Bool, true, false, List, [], ◌∷◌, ◌++◌, ◌==◌, arith, if◌then◌else◌, All}

abbrev pub Text : Type 0
Text = List ℕ

abbrev pub codes : String → Text
codes String.[] = []
codes (String.◌∷◌ c s) = code c ∷ codes s

unfoldable pub same_text : Text → Text → Bool
same_text [] [] = true
same_text (a ∷ x) (b ∷ y) = let rest = same_text x y in if a == b then rest else false
same_text _ _ = false

pub same_text-eq : (x y : Text) → same_text x y ≡ true → x ≡ y
unfolding same_text
same_text-eq [] [] h = refl
same_text-eq [] (b ∷ y) h = absurd (cc)
same_text-eq (a ∷ x) [] h = absurd (cc)
same_text-eq (a ∷ x) (b ∷ y) h = ground (arith, same_text-eq x y)

pub same_text_refl : (x : Text) → same_text x x ≡ true
unfolding same_text
same_text_refl [] = refl
same_text_refl (a ∷ x) = ground (arith, same_text_refl x)

-- `text in texts`
unfoldable pub contains : Text → List Text → Bool
contains x [] = false
contains x (y ∷ ys) = let rest = contains x ys in if same_text x y then true else rest

abbrev pub is_empty : Text → Bool
is_empty [] = true
is_empty (_ ∷ _) = false

-- `str.startswith`
unfoldable pub starts_with : Text → Text → Bool
starts_with [] x = true
starts_with (a ∷ p) [] = false
starts_with (a ∷ p) (b ∷ x) = let rest = starts_with p x in if a == b then rest else false

pub append-cancel_left : (p x y : Text) → p ++ x ≡ p ++ y → x ≡ y
append-cancel_left [] x y h = h
append-cancel_left (a ∷ p) x y h = append-cancel_left p x y (cons-eq-cons.0 h).1

-- A text up to the first occurrence of a separator that it does not hold.
pub split_at_separator :
    (c : ℕ) (p p' q q' : Text)
    → All (λ a. a ≢ c) p
    → All (λ a. a ≢ c) p'
    → p ++ c ∷ q ≡ p' ++ c ∷ q'
    → (p ≡ p') × (q ≡ q')
split_at_separator c [] [] q q' h h' e = (refl, (cons-eq-cons.0 e).1)
split_at_separator c [] (b ∷ p') q q' h h' e = absurd (h'.0 (sym (cons-eq-cons.0 e).0))
split_at_separator c (a ∷ p) [] q q' h h' e = absurd (h.0 (cons-eq-cons.0 e).0)
split_at_separator c (a ∷ p) (b ∷ p') q q' h h' e =
    let (same, rest) = cons-eq-cons.0 e in
    let (front, back) = split_at_separator c p p' q q' h.1 h'.1 rest in (cc, back)
