-- ===== src/Retrieval/Hits.antt =====
-- The hits of src/ragplan/core/models.py that the branches return and the fusion ranks. The confidence of a
-- relation is a whole number of 10⁻¹². Scores are floats, whose arithmetic is a parameter of the fusion;
-- a hit holds them as the type `Score`, and the values of its metadata as the type `Json`.
use oss.Prelude.{ℕ, min, ◌+◌, ◌-◌, Bool, true, false, not, Option, List, [], ◌∷◌, ltb}
use oss.Prelude.Text.{Text}
use oss.Core.Kinds.{BranchKind, vector, graph}
use oss.Core.Errors.{Result, raise_if, value_error, ◌>>◌}

pub data HitSource : Type 0 where
  from_branch : BranchKind → HitSource
  fusion : HitSource

pub record Relation : Type 0 where
  pub source_entity_id : Text
  pub target_entity_id : Text
  pub predicate : Text
  pub confidence : ℕ
  pub source_chunk_id : Text
  pub extractor_version : Text
  pub extraction_rule : Text

pub record GraphPath (Score : Type 0) : Type 0 where
  pub entity_ids : List Text
  pub relations : List Relation
  pub score : Score

pub record RetrievalContribution (Score Json : Type 0) : Type 0 where
  pub source : BranchKind
  pub original_rank : ℕ
  pub original_score : Score
  pub weight : ℕ
  pub rrf_contribution : Score
  pub metadata : List (Text × Json)

pub record RetrievalHit (Score Json : Type 0) : Type 0 where
  pub canonical_chunk_id : Text
  pub text : Text
  pub score : Score
  pub source : HitSource
  pub document_id : Option Text
  pub entity_ids : List Text
  pub metadata : List (Text × Json)
  pub rank : Option ℕ
  pub paths : List (GraphPath Score)
  pub sources : List BranchKind
  pub source_contributions : List (RetrievalContribution Score Json)

pub record FusionTrace : Type 0 where
  pub vector_input_count : ℕ
  pub graph_input_count : ℕ
  pub output_count : ℕ
  pub duplicate_count : ℕ
  pub missing_branches : List BranchKind

-- `missing_branches` in the order vector, graph and without repetition
abbrev pub is_canonical : List BranchKind → Bool
is_canonical [] = true
is_canonical (vector ∷ []) = true
is_canonical (graph ∷ []) = true
is_canonical (vector ∷ graph ∷ []) = true
is_canonical _ = false

-- FusionTrace._check_fusion_counts
unfoldable pub check_fusion_counts : FusionTrace → Result (Unit {0})
check_fusion_counts t = do
  raise_if (not (is_canonical t.missing_branches)) value_error
  raise_if (ltb (min t.vector_input_count t.graph_input_count) t.duplicate_count) value_error
  raise_if (ltb (t.vector_input_count + t.graph_input_count - t.duplicate_count) t.output_count)
      value_error
