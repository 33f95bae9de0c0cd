-- ===== src/Core/Ids/Unambiguous.antt =====
-- Identifiers cannot be confused: each determines the encoded parts that it was built from.
use oss.Prelude.{arith, ℕ, ◌≡◌, ◌≢◌, subst, ◌∙◌, sym, ◌∷◌, ◌++◌, All, not, true, refl, []}
use oss.Prelude.Text.{Text, split_at_separator, append-cancel_left, starts_with}
use oss.Core.Errors.{Result, ok, returned_first, raise_if, value_error, ◌>>=◌}
use oss.Core.Ids.{
  TextLibrary, strip, component, canonical_document_id, canonical_chunk_id, colon, document_prefix,
  chunk_prefix,
}

-- What `quote(…, safe="-._~")` and `str` of a number document: the colon is always escaped, and a
-- decimal text has none and determines its number.
pub record IsPython (lib : TextLibrary) : Type 0 where
  pub quote_escapes : (x : Text) → All (λ a. a ≢ colon) (lib.quote x)
  pub decimal_plain : (n : ℕ) → All (λ a. a ≢ colon) (lib.decimal n)
  pub decimal_injective : (n m : ℕ) → lib.decimal n ≡ lib.decimal m → n ≡ m

component-quote :
    (lib : TextLibrary) (x c : Text)
    → component lib x ≡ ok c
    → lib.quote (strip lib.is_space (lib.nfkc x)) ≡ c
unfolding component
component-quote lib x c h = ground arith

document_parts :
    (lib : TextLibrary) (a b i : Text)
    → canonical_document_id lib a b ≡ ok i
    → (c : Text) × (d : Text) × (component lib a ≡ ok c)
      × (component lib b ≡ ok d)
      × (document_prefix ++ (c ++ colon ∷ d) ≡ i)
unfolding canonical_document_id
document_parts lib a b i h =
    let (c, h', ec) = returned_first _ (component lib a) i h in
    let (d, h'', ed) =
      returned_first (λ d. ok (document_prefix ++ (c ++ colon ∷ d))) (component lib b) i h' in
    (c, d, ec, ed, cc)

chunk_parts :
    (lib : TextLibrary) (doc : Text) (n : ℕ) (x i : Text)
    → canonical_chunk_id lib doc n x ≡ ok i
    → (c : Text) × (component lib doc ≡ ok c)
      × (chunk_prefix ++ (c ++ colon ∷ (lib.decimal n ++ colon ∷ lib.content_hash_prefix x)) ≡ i)
unfolding canonical_chunk_id
chunk_parts lib doc n x i h =
    let next : Text → Result Text = λ c.
      ok (chunk_prefix ++ (c ++ colon ∷ (lib.decimal n ++ colon ∷ lib.content_hash_prefix x))) in
    let (_, h', _) =
      returned_first (λ _. component lib doc >>= next)
        (raise_if (not (starts_with document_prefix doc)) value_error) i h in
    let (c, e, ec) = returned_first next (component lib doc) i h' in (c, ec, cc)

starts_with-append : (p x : Text) → starts_with p (p ++ x) ≡ true
unfolding starts_with
starts_with-append [] x = refl
starts_with-append (a ∷ p) x = ground (arith, starts_with-append p x)

-- An identifier of a document is accepted where the identifier of a chunk wants one.
pub document_id_prefix :
    (lib : TextLibrary) (a b i : Text)
    → canonical_document_id lib a b ≡ ok i
    → starts_with document_prefix i ≡ true
document_id_prefix lib a b i h =
    let (c, d, _, _, e) = document_parts lib a b i h in
    subst (λ i. starts_with document_prefix i ≡ true) e (starts_with-append document_prefix _)

module _ (lib : TextLibrary) (python : IsPython lib) where
  component-plain : (x c : Text) → component lib x ≡ ok c → All (λ a. a ≢ colon) c
  component-plain x c h =
      subst (λ t. All (λ a. a ≢ colon) t) (component-quote lib x c h) (python.quote_escapes _)

  -- Two documents with the same identifier have the same encoded dataset and the same encoded
  -- source identifier, whatever delimiters their names hold.
  pub document_id_unambiguous :
      (a b a' b' i : Text)
      → canonical_document_id lib a b ≡ ok i
      → canonical_document_id lib a' b' ≡ ok i
      → (component lib a ≡ component lib a') × (component lib b ≡ component lib b')
  document_id_unambiguous a b a' b' i h h' =
      let (c, d, ec, ed, e) = document_parts lib a b i h in
      let (c', d', ec', ed', e') = document_parts lib a' b' i h' in
      let (front, back) =
        split_at_separator colon c c' d d' (component-plain a c ec) (component-plain a' c' ec')
          (append-cancel_left document_prefix _ _ (e ∙ sym e')) in
      (cc, cc)

  -- Two chunks with the same identifier have the same encoded document, the same position and texts
  -- with the same hash.
  pub chunk_id_unambiguous :
      (doc doc' : Text) (n n' : ℕ) (x x' i : Text)
      → canonical_chunk_id lib doc n x ≡ ok i
      → canonical_chunk_id lib doc' n' x' ≡ ok i
      → (component lib doc ≡ component lib doc')
        × (n ≡ n')
        × (lib.content_hash_prefix x ≡ lib.content_hash_prefix x')
  chunk_id_unambiguous doc doc' n n' x x' i h h' =
      let (c, ec, e) = chunk_parts lib doc n x i h in
      let (c', ec', e') = chunk_parts lib doc' n' x' i h' in
      let (front, back) =
        split_at_separator colon c c' _ _ (component-plain doc c ec) (component-plain doc' c' ec')
          (append-cancel_left chunk_prefix _ _ (e ∙ sym e')) in
      let (index, hash) =
        split_at_separator colon (lib.decimal n) (lib.decimal n') _ _ (python.decimal_plain n)
          (python.decimal_plain n') back in
      (cc, python.decimal_injective n n' index, hash)
