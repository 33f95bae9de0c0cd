-- ===== src/Samples/Fusion.antt =====
-- Runs of the fusion, with scores in units of 10⁻¹⁸ in place of floats.
use oss.Prelude.{
  ℕ, ◌+◌, ◌-◌, ◌*◌, ◌/◌, min, Bool, List, [], ◌∷◌, none, some, ◌≡◌, refl, ltb, length,
}
use oss.Prelude.Text.{Text, codes, same_text}
use oss.Core.Errors.{Result, ok, raise}
use oss.Core.Kinds.{BranchKind, vector, graph}
use oss.Retrieval.Hits.{from_branch, RetrievalHit, check_fusion_counts}
use oss.Retrieval.Fusion.{Floats, FusionResult, ids}
use oss.Retrieval.Fusion.Fused.{weighted_rrf_v1}
use oss.Retrieval.Fusion.Order.Counts.{trace_counts}
use oss.Retrieval.Fusion.Errors.{IsExpected, weighted_rrf_v1-IsExpected}

abbrev pub scaled : Floats ℕ
scaled = record {
  zero_score = 0;
  add = λ a b. a + b;
  less = ltb;
  rrf_share = λ weight rank. weight * 1_000_000 / (60 + rank);
}

abbrev pub same_text_value : Text → Text → Bool
unfolding same_text
same_text_value = same_text

abbrev pub hit : BranchKind → Text → ℕ → RetrievalHit ℕ Text
hit branch id score = record {
  canonical_chunk_id = id;
  text = codes "evidence";
  score = score;
  source = from_branch branch;
  document_id = none;
  entity_ids = [];
  metadata = [];
  rank = none;
  paths = [];
  sources = [];
  source_contributions = [];
}

abbrev pub half : ℕ
half = 500_000_000_000

abbrev pub vector_found : List (RetrievalHit ℕ Text)
vector_found = hit vector (codes "a") 90 ∷ hit vector (codes "b") 80 ∷ []

abbrev pub graph_found : List (RetrievalHit ℕ Text)
graph_found = hit graph (codes "b") 7 ∷ hit graph (codes "c") 6 ∷ []

abbrev outcome : Result (FusionResult ℕ Text)
unfolding weighted_rrf_v1
outcome = weighted_rrf_v1 scaled same_text_value (some vector_found) (some graph_found) half half 2

abbrev names : Result (FusionResult ℕ Text) → List Text
names (ok r) = ids r.hits
names (raise e) = []

both_run : names outcome ≡ codes "b" ∷ codes "a" ∷ []
unfolding weighted_rrf_v1 outcome
both_run = refl

abbrev nothing : FusionResult ℕ Text
nothing = record {
  hits = [];
  trace = record {
    vector_input_count = 0;
    graph_input_count = 0;
    output_count = 0;
    duplicate_count = 0;
    missing_branches = [];
  };
}

abbrev result_or : FusionResult ℕ Text → Result (FusionResult ℕ Text) → FusionResult ℕ Text
result_or r (ok r') = r'
result_or r (raise e) = r

abbrev both : FusionResult ℕ Text
unfolding weighted_rrf_v1
both =
    result_or nothing
      (weighted_rrf_v1 scaled same_text_value (some vector_found) (some graph_found) half half 2)

abbrev sole : FusionResult ℕ Text
unfolding weighted_rrf_v1
sole =
    result_or nothing (weighted_rrf_v1 scaled same_text_value none (some graph_found) half half 1)

both_returns :
    weighted_rrf_v1 scaled same_text_value (some vector_found) (some graph_found) half half 2
    ≡ ok both
unfolding weighted_rrf_v1 both
both_returns = refl

sole_returns : weighted_rrf_v1 scaled same_text_value none (some graph_found) half half 1 ≡ ok sole
unfolding weighted_rrf_v1 sole
sole_returns = refl

both_trace_checks : check_fusion_counts both.trace ≡ ok tt
unfolding check_fusion_counts both
both_trace_checks = refl

trace_counts_example :
    (both.trace.vector_input_count ≡ 2)
    × (both.trace.graph_input_count ≡ 2)
    × (both.trace.output_count ≡ length both.hits)
    × (both.trace.output_count
        ≡ min 2 (
            both.trace.vector_input_count + both.trace.graph_input_count
            - both.trace.duplicate_count))
trace_counts_example =
    trace_counts scaled same_text_value half half 2 (some vector_found) (some graph_found) both
      both_returns

-- A hit that the graph branch returns as its own is of the wrong source in the vector branch.
weighted_rrf_v1-IsExpected_example :
    IsExpected (weighted_rrf_v1 scaled same_text_value (some graph_found) none half half 2)
weighted_rrf_v1-IsExpected_example =
    weighted_rrf_v1-IsExpected scaled same_text_value (some graph_found) none half half 2
