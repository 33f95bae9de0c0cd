-- ===== src/Benchmark/Metrics/Prefix.antt =====
-- The loop that cuts a ranking at k different identifiers, and its description without a loop.
use oss.Prelude.{
  ℕ, zero, suc, ◌≤◌, ◌<◌, List, [], ◌∷◌, ◌++◌, take, length, length-append, ◌≡◌, refl, sym, subst,
  ap, ◌∙◌, arith, Bool-cases, inl, inr, ==_iff, ◌==◌, if◌then◌else◌,
}
use oss.Prelude.Text.{Text, contains}
use oss.Benchmark.Metrics.{unique_from, unique_prefix}

-- The identifiers in the order of their first occurrences, without those seen before.
abbrev pub fresh : List Text → List Text → List Text
fresh seen [] = []
fresh seen (x ∷ xs) =
    let next : List Text → List Text = λ seen. fresh seen xs in
    if contains x seen then next seen else x ∷ next (seen ++ x ∷ [])

append_one {ℓ} : {A : Type ℓ} (xs ys : List A) (x : A) → (xs ++ x ∷ []) ++ ys ≡ xs ++ x ∷ ys
append_one [] ys x = refl
append_one (y ∷ xs) ys x = ap (λ zs. y ∷ zs) (append_one xs ys x)

take-length-append {ℓ} : {A : Type ℓ} (xs ys : List A) → take (length xs) (xs ++ ys) ≡ xs
take-length-append [] ys = refl
take-length-append (x ∷ xs) ys = ap (λ zs. x ∷ zs) (take-length-append xs ys)

take-append {ℓ} : {A : Type ℓ} (k : ℕ) (xs ys : List A) → length xs ≡ k → take k (xs ++ ys) ≡ xs
take-append k xs ys h = subst (λ n. take n (xs ++ ys) ≡ xs) h (take-length-append xs ys)

take_all {ℓ} : {A : Type ℓ} (k : ℕ) (xs : List A) → length xs ≤ k → take k (xs ++ []) ≡ xs
take_all zero [] h = refl
take_all zero (x ∷ xs) h = absurd (omega (arith, h))
take_all (suc k) [] h = refl
take_all (suc k) (x ∷ xs) h = ap (λ zs. x ∷ zs) (take_all k xs (omega (arith, h)))

unique_from-take :
    (k : ℕ) (unique ranked : List Text)
    → length unique < k
    → unique_from k unique ranked ≡ take k (unique ++ fresh unique ranked)
unfolding unique_from
unique_from-take k unique [] h = sym (take_all k unique (omega arith))
unique_from-take k unique (x ∷ ranked) h = elim (Bool-cases (contains x unique)) [
  | inl old ↦ rw old (unique_from-take k unique ranked h)
  | inr new ↦
      let longer = length-append unique (x ∷ []) in
      elim (Bool-cases (length (unique ++ x ∷ []) == k)) [
        | inl full ↦
            rw (new, full)
              (sym (
                  take-append k (unique ++ x ∷ []) (fresh (unique ++ x ∷ []) ranked)
                    ((==_iff _ _).0 full))
                ∙ ap (take k) (append_one unique _ x))
        | inr more ↦
            rw (new, more)
              (unique_from-take k (unique ++ x ∷ []) ranked (grind arith)
                ∙ ap (take k) (append_one unique _ x))
      ]
]

-- The prefix is the first k of the different identifiers, in the order of their first occurrences.
pub unique_prefix-take :
    (k : ℕ) (ranked : List Text) → 1 ≤ k → unique_prefix k ranked ≡ take k (fresh [] ranked)
unique_prefix-take k ranked h = unique_from-take k [] ranked (omega arith)
