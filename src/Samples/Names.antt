-- ===== src/Samples/Names.antt =====
-- The normalisation of names at a small library.
use oss.Prelude.{
  ℕ, Bool, ◌||◌, ◌&&◌, leb, ◌==◌, ◌+◌, [], ◌∷◌, ◌≡◌, ◌≢◌, refl, some, ◌⊎◌, if◌then◌else◌,
}
use oss.Prelude.Text.{Text, codes}
use oss.Core.Errors.{ok, raise, value_error}
use oss.Core.Ids.Entities.{UuidLibrary, normalize_entity_name, entity_id}
use oss.Core.Ids.Entities.Trimmed.{IsTrimmed, normalize_entity_name-IsTrimmed}
use oss.Samples.Ingestion.{small_python}

abbrev lower : Text → Text
lower [] = []
lower (a ∷ x) = (if leb 65 a && leb a 90 then a + 32 else a) ∷ lower x

-- The parentheses, the full stop and the quotation mark
abbrev is_mark : ℕ → Bool
is_mark a = a == 34 || (a == 40 || (a == 41 || a == 46))

abbrev small_uuids : UuidLibrary
small_uuids = record {
  casefold = lower;
  upper = λ x. x;
  is_punctuation = is_mark;
  uuid5 = λ _ x. x;
  parse_uuid = some;
}

-- The marks and the blanks at the ends go away in turns.
trimmed_run :
    normalize_entity_name small_python small_uuids (codes "(\" Acme  (UK) Corp. \" .)")
    ≡ ok (codes "acme (uk) corp")
unfolding normalize_entity_name
trimmed_run = refl

empty_run : normalize_entity_name small_python small_uuids (codes "( .)") ≡ raise value_error
unfolding normalize_entity_name
empty_run = refl

entity_run :
    entity_id small_python small_uuids (codes " ORG") (codes "Acme") ≡ ok (codes "ORG:acme")
unfolding entity_id
entity_run = refl

normalize_entity_name-IsTrimmed_example :
    (normalize_entity_name small_python small_uuids (codes "(Acme.)") ≡ raise value_error)
    ⊎ ((y : Text) × (normalize_entity_name small_python small_uuids (codes "(Acme.)") ≡ ok y)
        × (y ≢ [])
        × IsTrimmed small_python small_uuids y)
normalize_entity_name-IsTrimmed_example =
    normalize_entity_name-IsTrimmed small_python small_uuids (codes "(Acme.)")
