-- ===== src/Core/Ids/Entities.antt =====
-- Entity names and the UUIDs of entities, points, mentions and relations, from src/ragplan/core/ids.py.

pub mod Trimmed
use oss.Prelude.{
  ℕ, zero, suc, ◌+◌, Bool, true, false, not, ◌&&◌, ◌||◌, Option, none, some, List, [], ◌∷◌, ◌++◌,
  leb, length, if◌then◌else◌,
}
use oss.Prelude.Text.{Text, codes, same_text, contains, is_empty, starts_with}
use oss.Core.Errors.{Result, ok, raise, value_error, other_exception, raise_if, ◌>>=◌, ◌>>◌}
use oss.Core.Ids.{TextLibrary, strip, component, colon, chunk_prefix}

pub data Namespace : Type 0 where
  entity_namespace qdrant_namespace mention_namespace relation_namespace : Namespace

-- What the names and UUIDs take from Python's library besides; `parse_uuid` is the text of
-- `uuid.UUID(…)`, if there is one.
pub record UuidLibrary : Type 0 where
  pub casefold : Text → Text
  pub upper : Text → Text
  pub is_punctuation : ℕ → Bool
  pub uuid5 : Namespace → Text → Text
  pub parse_uuid : Text → Option Text

abbrev pub allowed_entity_types : List Text
allowed_entity_types =
    codes "PERSON"
    ∷ codes "ORG"
    ∷ codes "GPE"
    ∷ codes "LOC"
    ∷ codes "FAC"
    ∷ codes "PRODUCT"
    ∷ codes "EVENT"
    ∷ codes "WORK_OF_ART"
    ∷ []

-- A word before the words that follow it
abbrev word_and : Text → List Text → List Text
word_and [] words = words
word_and (a ∷ w) words = (a ∷ w) ∷ words

-- The word that a text begins with, and the words after it
abbrev words_from : (ℕ → Bool) → Text → Text × List Text
words_from space [] = ([], [])
words_from space (a ∷ x) =
    let (w, words) = words_from space x in
    if space a then ([], word_and w words) else (a ∷ w, words)

-- `str.split` without an argument
abbrev pub split : (ℕ → Bool) → Text → List Text
split space x = let (w, words) = words_from space x in word_and w words

-- `" ".join`
abbrev pub join_words : List Text → Text
join_words [] = []
join_words (w ∷ []) = w
join_words (w ∷ v ∷ words) = w ++ 32 ∷ join_words (v ∷ words)

module _ (lib : TextLibrary) (uuids : UuidLibrary) where
  -- One round of the loop of normalize_entity_name: blanks, then punctuation, at both ends
  unfoldable pub trim : Text → Text
  trim x = strip uuids.is_punctuation (strip lib.is_space x)

  -- The loop, which ends with the first round that changes nothing
  unfoldable pub trim_until_stable : ℕ → Text → Result Text
  unfolding trim same_text
  trim_until_stable zero x = raise other_exception
  trim_until_stable (suc n) x =
      let rest = trim_until_stable n (trim x) in if same_text (trim x) x then ok x else rest

  unfoldable pub normalize_entity_name : Text → Result Text
  unfolding trim_until_stable
  normalize_entity_name name = do
    let normalized =
        uuids.casefold (join_words (split lib.is_space (strip lib.is_space (lib.nfkc name))))
    trimmed ← trim_until_stable (1 + length normalized) normalized
    raise_if (is_empty trimmed) value_error
    ok trimmed

  unfoldable pub entity_id : Text → Text → Result Text
  unfolding normalize_entity_name component contains
  entity_id entity_type normalized_name = do
    let normalized_type = uuids.upper (strip lib.is_space (lib.nfkc entity_type))
    raise_if (not (contains normalized_type allowed_entity_types)) value_error
    name ← normalize_entity_name normalized_name
    left ← component lib normalized_type
    right ← component lib name
    ok (uuids.uuid5 entity_namespace (left ++ colon ∷ right))

  unfoldable pub qdrant_point_id : Text → Result Text
  unfolding starts_with
  qdrant_point_id chunk_id = do
    raise_if (not (starts_with chunk_prefix chunk_id)) value_error
    ok (uuids.uuid5 qdrant_namespace chunk_id)

  abbrev parsed : Text → Result Text
  parsed x = elim (uuids.parse_uuid x) [ some t ↦ ok t | none ↦ raise value_error ]

  unfoldable pub entity_mention_id : Text → Text → ℕ → ℕ → Result Text
  unfolding starts_with
  entity_mention_id chunk_id entity_uuid start_char end_char = do
    raise_if (not (starts_with chunk_prefix chunk_id)) value_error
    entity ← parsed entity_uuid
    raise_if (leb end_char start_char) value_error
    ok (
        uuids.uuid5 mention_namespace (
          chunk_id
          ++ colon ∷ (entity ++ colon ∷ (lib.decimal start_char ++ colon ∷ lib.decimal end_char))))

  -- `" ".join(unicodedata.normalize("NFKC", …).casefold().split())`
  abbrev normalized_label : Text → Text
  normalized_label x = join_words (split lib.is_space (uuids.casefold (lib.nfkc x)))

  unfoldable pub relation_id : Text → Text → Text → Text → Text → Result Text
  unfolding starts_with same_text
  relation_id source_uuid target_uuid predicate chunk_id extraction_rule = do
    source ← parsed source_uuid
    target ← parsed target_uuid
    raise_if (same_text source target) value_error
    raise_if (not (starts_with chunk_prefix chunk_id)) value_error
    let predicate' = normalized_label predicate
    let rule = normalized_label extraction_rule
    raise_if (is_empty predicate' || is_empty rule) value_error
    ok (
        uuids.uuid5 relation_namespace (
          source ++ colon ∷ (target ++ colon ∷ (predicate' ++ colon ∷ (chunk_id ++ colon ∷ rule)))))
