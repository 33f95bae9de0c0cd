-- ===== src/Core/Ids/Entities/Trimmed.antt =====
-- The loop of normalize_entity_name ends, and what it ends with.
use oss.Prelude.{
  ℕ, zero, suc, ◌+◌, ◌≤◌, ◌<◌, Bool, true, false, [], ◌∷◌, ◌≡◌, ◌≢◌, refl, ap, ◌∙◌, subst, arith,
  ◌⊎◌, inl, inr, Bool-cases, le_or_lt, length,
}
use oss.Prelude.Text.{Text, same_text, same_text-eq, same_text_refl, is_empty}
use oss.Core.Errors.{ok, raise, value_error}
use oss.Core.Ids.{TextLibrary, drop_blanks, strip}
use oss.Core.Ids.Entities.{
  UuidLibrary, split, join_words, trim, trim_until_stable, normalize_entity_name,
}
use mathlib.Core.List.{reverse, reverse_aux, reverse-reverse}

length-reverse_aux : (x y : Text) → length (reverse_aux x y) ≡ length x + length y
length-reverse_aux [] y = omega arith
length-reverse_aux (a ∷ x) y = omega (arith, length-reverse_aux x (a ∷ y))

length-reverse : (x : Text) → length (reverse x) ≡ length x
length-reverse x = omega (arith, length-reverse_aux x [])

length-drop_blanks : (f : ℕ → Bool) (x : Text) → length (drop_blanks f x) ≤ length x
length-drop_blanks f [] = omega arith
length-drop_blanks f (a ∷ x) = ground (arith, length-drop_blanks f x)

drop_blanks_same :
    (f : ℕ → Bool) (x : Text) → length x ≤ length (drop_blanks f x) → drop_blanks f x ≡ x
drop_blanks_same f [] h = refl
drop_blanks_same f (a ∷ x) h = elim (Bool-cases (f a)) [
  | inl e ↦ absurd (omega (arith, length-drop_blanks f x, rw e at h))
  | inr e ↦ rw e
]

length-strip : (f : ℕ → Bool) (x : Text) → length (strip f x) ≤ length x
length-strip f x = omega (
  arith,
  length-reverse (drop_blanks f (reverse (drop_blanks f x))),
  length-drop_blanks f (reverse (drop_blanks f x)),
  length-reverse (drop_blanks f x),
  length-drop_blanks f x,
)

strip_same : (f : ℕ → Bool) (x : Text) → length x ≤ length (strip f x) → strip f x ≡ x
strip_same f x h =
    let back = reverse (drop_blanks f x) in
    let back_same : drop_blanks f back ≡ back = drop_blanks_same f back (
      omega (
        arith,
        h,
        length-reverse (drop_blanks f back),
        length-reverse (drop_blanks f x),
        length-drop_blanks f x,
      )) in
    let front_same : drop_blanks f x ≡ x = drop_blanks_same f x (
      omega (
        arith,
        h,
        length-reverse (drop_blanks f back),
        length-reverse (drop_blanks f x),
        length-drop_blanks f back,
      )) in
    ap reverse back_same ∙ reverse-reverse (drop_blanks f x) ∙ front_same

is_empty-cases : (y : Text) → (is_empty y ≡ true) ⊎ ((is_empty y ≡ false) × (y ≢ []))
is_empty-cases [] = inl refl
is_empty-cases (a ∷ y) = inr (refl, λ h. cc)

-- Neither end of a text passes either test.
abbrev pub IsTrimmed : TextLibrary → UuidLibrary → Text → Type 0
IsTrimmed lib uuids x = (strip lib.is_space x ≡ x) × (strip uuids.is_punctuation x ≡ x)

module _ (lib : TextLibrary) (uuids : UuidLibrary) where
  trim-IsTrimmed : (x : Text) → length x ≤ length (trim lib uuids x) → IsTrimmed lib uuids x
  unfolding trim
  trim-IsTrimmed x h =
      let blanks : strip lib.is_space x ≡ x =
        strip_same lib.is_space x
          (omega (arith, h, length-strip uuids.is_punctuation (strip lib.is_space x))) in
      (
        blanks,
        strip_same uuids.is_punctuation x
            (subst (λ y. length x ≤ length (strip uuids.is_punctuation y)) blanks h),
      )

  trimmed-trim : (x : Text) → IsTrimmed lib uuids x → trim lib uuids x ≡ x
  unfolding trim
  trimmed-trim x (blanks, marks) = ap (strip uuids.is_punctuation) blanks ∙ marks

  shorter :
      (x : Text) → same_text (trim lib uuids x) x ≡ false → length (trim lib uuids x) < length x
  shorter x h = elim (le_or_lt (length x) (length (trim lib uuids x))) [
    | inl le ↦
        let same = trimmed-trim x (trim-IsTrimmed x le) in
        let equal = same_text_refl x in absurd (cc)
    | inr gt ↦ gt
  ]

  trim_until_stable-IsTrimmed :
      (n : ℕ) (x : Text)
      → length x < n
      → (y : Text) × (trim_until_stable lib uuids n x ≡ ok y) × IsTrimmed lib uuids y
  unfolding trim_until_stable
  trim_until_stable-IsTrimmed zero x h = absurd (omega arith)
  trim_until_stable-IsTrimmed (suc n) x h = elim (Bool-cases (same_text (trim lib uuids x) x)) [
    | inl e ↦
        (x, rw e, trim-IsTrimmed x (omega (arith, ap length (same_text-eq (trim lib uuids x) x e))))
    | inr e ↦
        let (y, found, trimmed) =
          trim_until_stable-IsTrimmed n (trim lib uuids x) (omega (arith, shorter x e)) in
        (y, ground (arith, e, found), trimmed)
  ]

  -- The normalisation of an entity's name always ends: with ValueError, or with a name that is not empty and has neither a blank nor a
  -- punctuation mark at an end.
  pub normalize_entity_name-IsTrimmed :
      (name : Text)
      → (normalize_entity_name lib uuids name ≡ raise value_error)
        ⊎ ((y : Text) × (normalize_entity_name lib uuids name ≡ ok y)
            × (y ≢ [])
            × IsTrimmed lib uuids y)
  unfolding normalize_entity_name
  normalize_entity_name-IsTrimmed name =
      let normalized =
        uuids.casefold (join_words (split lib.is_space (strip lib.is_space (lib.nfkc name)))) in
      let (y, found, trimmed) =
        trim_until_stable-IsTrimmed (1 + length normalized) normalized (omega arith) in
      elim (is_empty-cases y) [
        | inl empty ↦ inl (rw (found, empty))
        | inr full ↦ inr (y, rw (found, full.0), full.1, trimmed)
      ]
