-- ===== src/Core/Ids.antt =====
-- src/ragplan/core/ids.py: the identifiers of documents and chunks. Unicode normalisation, the test
-- for blanks of `str.strip`, `urllib.parse.quote`, the hexadecimal SHA-256 prefix and the decimal
-- text of a number are Python's, and parameters here; the type tests are met by the types.
pub mod Entities
pub mod Unambiguous
use oss.Prelude.{ℕ, Bool, true, false, not, List, [], ◌∷◌, ◌++◌, if◌then◌else◌}
use oss.Prelude.Text.{Text, codes, is_empty, starts_with}
use oss.Core.Errors.{Result, ok, raise, value_error, raise_if, ◌>>=◌, ◌>>◌}
use mathlib.Core.List.{reverse}

-- What the identifiers and the texts take from Python's library, and from pydantic the test for
-- blanks of `strip_whitespace`.
pub record TextLibrary : Type 0 where
  pub nfkc : Text → Text
  pub is_space : ℕ → Bool
  pub is_white_space : ℕ → Bool
  pub quote : Text → Text
  pub content_hash_prefix : Text → Text
  pub decimal : ℕ → Text

abbrev pub drop_blanks : (ℕ → Bool) → Text → Text
drop_blanks space [] = []
drop_blanks space (a ∷ x) = let rest = drop_blanks space x in if space a then rest else a ∷ x

-- `str.strip`
abbrev pub strip : (ℕ → Bool) → Text → Text
strip space x = reverse (drop_blanks space (reverse (drop_blanks space x)))

abbrev pub colon : ℕ
colon = 58

abbrev pub document_prefix : Text
document_prefix = codes "v1:document:"

abbrev pub chunk_prefix : Text
chunk_prefix = codes "v1:chunk:"

module _ (lib : TextLibrary) where
  -- _component
  unfoldable pub component : Text → Result Text
  component value = do
    let normalized = strip lib.is_space (lib.nfkc value)
    raise_if (is_empty normalized) value_error
    ok (lib.quote normalized)

  unfoldable pub canonical_document_id : Text → Text → Result Text
  unfolding component
  canonical_document_id source_dataset source_document_id = do
    dataset ← component source_dataset
    document ← component source_document_id
    ok (document_prefix ++ (dataset ++ colon ∷ document))

  unfoldable pub canonical_chunk_id : Text → ℕ → Text → Result Text
  unfolding component starts_with
  canonical_chunk_id document_id chunk_index content = do
    raise_if (not (starts_with document_prefix document_id)) value_error
    document ← component document_id
    ok (
        chunk_prefix
        ++ (document
            ++ colon ∷ (lib.decimal chunk_index ++ colon ∷ lib.content_hash_prefix content)))
