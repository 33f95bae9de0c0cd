-- ===== src/Retrieval/Fusion.antt =====
-- src/ragplan/retrieval/fusion.py. The float arithmetic of scores is a parameter, since the code depends on
-- no law of it: `less` compares two scores, none of which is NaN, and equality of scores is that neither is
-- less. A dictionary of hits is the list of its values in the order of insertion. The source iterates over a
-- set of identifiers; the model takes the vector branch's in order and then the rest of the graph's, and the
-- result does not depend on that order, since no identifier occurs twice among what is sorted.
pub mod Fused
pub mod Candidates
pub mod Order
pub mod Total
pub mod Errors
use oss.Prelude.{
  ℕ, zero, suc, ◌+◌, Bool, true, false, not, ◌&&◌, ◌||◌, Option, none, some, List, [], ◌∷◌, ◌++◌,
  map, leb, ltb, ◌==◌, length, take, any_of, all_of, count_of, keep, if◌then◌else◌,
}
use oss.Prelude.Text.{Text, codes, same_text, contains, starts_with}
use oss.Prelude.Sorting.{sort_by}
use oss.Prelude.Compare.{
  Comparison, below, same, above, and_then, compare_numbers, compare_lists, compare_texts, at_most,
}
use oss.Core.Errors.{
  Exception, Result, ok, raise, value_error, other_exception, rag, ragplan_error,
  corpus_inconsistent, raise_if, ◌>>=◌, ◌>>◌,
}
use oss.Core.Kinds.{BranchKind, vector, graph, same_kind}
use oss.Planner.Plan.{one, is_close}
use oss.Retrieval.Hits.{
  HitSource, from_branch, fusion, Relation, GraphPath, RetrievalContribution, RetrievalHit,
  FusionTrace,
}

abbrev pub max_graph_paths_per_hit : ℕ
max_graph_paths_per_hit = 50

-- _Candidate
pub record Candidate (Score Json : Type 0) : Type 0 where
  pub vector_hit : Option (RetrievalHit Score Json)
  pub graph_hit : Option (RetrievalHit Score Json)

-- FusionResult
pub record FusionResult (Score Json : Type 0) : Type 0 where
  pub hits : List (RetrievalHit Score Json)
  pub trace : FusionTrace

-- The operations on floats that the code uses
pub record Floats (Score : Type 0) : Type 0 where
  pub zero_score : Score
  pub add : Score → Score → Score
  pub less : Score → Score → Bool
  pub rrf_share : ℕ → ℕ → Score

unfoldable pub inconsistent : Exception
unfolding ragplan_error
inconsistent = rag (ragplan_error corpus_inconsistent none none)

-- _BRANCH_NATIVE_METADATA_KEYS
abbrev pub branch_native_metadata_keys : List Text
branch_native_metadata_keys =
    codes "normalized_seed_overlap"
    ∷ codes "inverse_hop_count"
    ∷ codes "mean_relation_confidence"
    ∷ codes "seed_overlap_contribution"
    ∷ codes "hop_contribution"
    ∷ codes "confidence_contribution"
    ∷ codes "matched_seed_count"
    ∷ codes "contributing_seed_count"
    ∷ []

-- _validate_weights, on fractions
unfoldable pub validate_weights : ℕ → ℕ → Result (Unit {0})
validate_weights vector_weight graph_weight = do
  raise_if (not (leb vector_weight one && leb graph_weight one)) value_error
  raise_if (not (is_close (vector_weight + graph_weight) one)) value_error

abbrev pub same_source : HitSource → BranchKind → Bool
same_source (from_branch a) b = same_kind a b
same_source fusion b = false

abbrev pub differs : Option ℕ → ℕ → Bool
differs none n = false
differs (some m) n = not (m == n)

abbrev pub texts_differ : Option Text → Option Text → Bool
texts_differ (some a) (some b) = not (same_text a b)
texts_differ _ _ = false

abbrev compare_relations : Relation → Relation → Comparison
compare_relations a b = and_then (compare_texts a.source_entity_id b.source_entity_id) (
    and_then (compare_texts a.target_entity_id b.target_entity_id) (
      and_then (compare_texts a.predicate b.predicate) (
        and_then (compare_numbers a.confidence b.confidence) (
          and_then (compare_texts a.source_chunk_id b.source_chunk_id) (
            and_then (compare_texts a.extractor_version b.extractor_version)
              (compare_texts a.extraction_rule b.extraction_rule))))))

-- The comparison of `_path_key` of two paths
unfoldable pub compare_paths : {Score : Type 0} → GraphPath Score → GraphPath Score → Comparison
unfolding compare_lists
compare_paths p q =
    and_then (compare_lists compare_texts p.entity_ids q.entity_ids)
      (compare_lists compare_relations p.relations q.relations)

abbrev pub is_same : Comparison → Bool
is_same same = true
is_same _ = false

-- `set(texts)`, as a list without repetition
abbrev pub distinct : List Text → List Text
distinct [] = []
distinct (x ∷ xs) = let rest = distinct xs in if contains x xs then rest else x ∷ rest

module _ {Score Json : Type 0} where
  abbrev pub ids : List (RetrievalHit Score Json) → List Text
  ids hits = map (λ (h : RetrievalHit Score Json). h.canonical_chunk_id) hits

  -- The loop of _index_branch over the hits from a rank on, with the identifiers that are indexed
  unfoldable pub index_from :
      BranchKind
      → ℕ
      → List Text
      → List (RetrievalHit Score Json)
      → Result (List (RetrievalHit Score Json))
  unfolding inconsistent contains
  index_from source rank seen [] = ok []
  index_from source rank seen (h ∷ hits) = do
    raise_if (not (same_source h.source source)) inconsistent
    raise_if (differs h.rank rank) inconsistent
    raise_if (contains h.canonical_chunk_id seen) inconsistent
    rest ← index_from source (suc rank) (h.canonical_chunk_id ∷ seen) hits
    ok (h ∷ rest)

  -- _index_branch
  unfoldable pub index_branch :
      Option (List (RetrievalHit Score Json)) → BranchKind → Result (List (RetrievalHit Score Json))
  unfolding index_from
  index_branch none source = ok []
  index_branch (some hits) source = index_from source 1 [] hits

  -- `by_id.get(canonical_id)`
  unfoldable pub find_hit : List (RetrievalHit Score Json) → Text → Option (RetrievalHit Score Json)
  unfolding same_text
  find_hit [] x = none
  find_hit (h ∷ hits) x =
      let rest = find_hit hits x in if same_text h.canonical_chunk_id x then some h else rest

  unfoldable pub rank_from : ℕ → List (RetrievalHit Score Json) → Text → Option ℕ
  unfolding same_text
  rank_from rank [] x = none
  rank_from rank (h ∷ hits) x =
      let rest = rank_from (suc rank) hits x in
      if same_text h.canonical_chunk_id x then some rank else rest

  -- _rank_of
  unfoldable pub rank_of : Option (List (RetrievalHit Score Json)) → Text → Option ℕ
  unfolding rank_from
  rank_of none x = none
  rank_of (some hits) x = rank_from 1 hits x
