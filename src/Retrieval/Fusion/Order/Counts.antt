-- ===== src/Retrieval/Fusion/Order/Counts.antt =====
-- The counts in the trace of weighted_rrf_v1.
use oss.Prelude.{
  ℕ, ◌+◌, ◌-◌, min, Bool, not, Option, none, some, List, [], ◌∷◌, ◌≡◌, refl, ap, arith, inl, inr,
  length, take, length-take, length-append, keep, count_of, length-map, keep_count,
}
use oss.Prelude.Text.{Text, contains}
use oss.Prelude.Sorting.{sort_by, length-sort_by}
use oss.Core.Errors.{ok, ok_injective}
use oss.Retrieval.Hits.{RetrievalHit}
use oss.Retrieval.Fusion.{Floats, FusionResult, ids}
use oss.Retrieval.Fusion.Fused.{ranked, hit_before, all_ids, ranking, weighted_rrf_v1}
use oss.Retrieval.Fusion.Candidates.{given, ids-ranked}
use oss.Retrieval.Fusion.Order.{weighted_rrf_v1-IsFusion, sole_branch_keeps_order}

all_ids-length :
    {Score Json : Type 0} (vs gs : List (RetrievalHit Score Json))
    → length (all_ids vs gs) ≡ length vs + length gs - count_of (λ x. contains x (ids vs)) (ids gs)
all_ids-length vs gs = omega (
  arith,
  length-append (ids vs) (keep (λ x. not (contains x (ids vs))) (ids gs)),
  keep_count (λ x. contains x (ids vs)) (ids gs),
  length-map (λ (h : RetrievalHit _ _). h.canonical_chunk_id) vs,
  length-map (λ (h : RetrievalHit _ _). h.canonical_chunk_id) gs,
)

length-ids :
    {Score Json : Type 0} (hits : List (RetrievalHit Score Json)) → length (ids hits) ≡ length hits
length-ids hits = length-map (λ (h : RetrievalHit _ _). h.canonical_chunk_id) hits

count-none : (xs : List Text) → count_of (λ x. contains x []) xs ≡ 0
unfolding contains
count-none [] = refl
count-none (x ∷ xs) = count-none xs

module _ {Score Json : Type 0} (floats : Floats Score) (same_value : Json → Json → Bool)
    (vector_weight graph_weight top_k : ℕ) where
  length-sole :
      (all : List Text) (answer : List (RetrievalHit Score Json)) (xs : List Text)
      → ids answer ≡ take top_k xs
      → length xs ≡ length all
      → length answer ≡ min top_k (length all)
  length-sole all answer xs h k =
      omega (arith, length-ids answer, ap length h, length-take top_k xs, k)

  length-ranked :
      (rank : ℕ) (hits : List (RetrievalHit Score Json)) → length (ranked rank hits) ≡ length hits
  length-ranked rank hits =
      omega
        (arith, length-ids (ranked rank hits), ap length (ids-ranked rank hits), length-ids hits)

  length-sorted :
      (all : List Text) (fused answer : List (RetrievalHit Score Json))
      → ids fused ≡ all
      → ok (ranked 1 (take top_k (sort_by (hit_before floats same_value) fused))) ≡ ok answer
      → length answer ≡ min top_k (length all)
  length-sorted all fused answer names h = omega (
    arith,
    ap length (ok_injective h),
    length-ranked 1 (take top_k (sort_by (hit_before floats same_value) fused)),
    length-take top_k (sort_by (hit_before floats same_value) fused),
    length-sort_by (hit_before floats same_value) fused,
    length-ids fused,
    ap length names,
  )

  length-answer :
      (vector_hits graph_hits : Option (List (RetrievalHit Score Json)))
      (r : FusionResult Score Json)
      → weighted_rrf_v1 floats same_value vector_hits graph_hits vector_weight graph_weight top_k
        ≡ ok r
      → length r.hits ≡ min top_k (length (all_ids (given vector_hits) (given graph_hits)))
  unfolding ranking
  length-answer (some vs) none r h =
      length-sole (all_ids vs []) r.hits (ids vs)
        (sole_branch_keeps_order floats same_value vector_weight graph_weight top_k vs r (inl h))
        (omega (arith, all_ids-length vs [], length-ids vs))
  length-answer none (some gs) r h =
      length-sole (all_ids [] gs) r.hits (ids gs)
        (sole_branch_keeps_order floats same_value vector_weight graph_weight top_k gs r (inr h))
        (omega (arith, all_ids-length [] gs, length-ids gs, count-none (ids gs)))
  length-answer none none r h =
      let f =
        weighted_rrf_v1-IsFusion floats same_value none none vector_weight graph_weight top_k r h in
      length-sorted [] f.fused r.hits f.names f.hits
  length-answer (some vs) (some gs) r h =
      let f =
        weighted_rrf_v1-IsFusion floats same_value (some vs) (some gs) vector_weight graph_weight
          top_k r h in
      length-sorted (all_ids vs gs) f.fused r.hits f.names f.hits

  -- The trace of a fusion counts the hits of each branch and of the answer, and the answer has as many hits as there
  -- are different identifiers, but at most `top_k`: those of both branches are counted once.
  pub trace_counts :
      (vector_hits graph_hits : Option (List (RetrievalHit Score Json)))
      (r : FusionResult Score Json)
      → weighted_rrf_v1 floats same_value vector_hits graph_hits vector_weight graph_weight top_k
        ≡ ok r
      → (r.trace.vector_input_count ≡ length (given vector_hits))
        × (r.trace.graph_input_count ≡ length (given graph_hits))
        × (r.trace.output_count ≡ length r.hits)
        × (r.trace.output_count
            ≡ min top_k
                (r.trace.vector_input_count + r.trace.graph_input_count - r.trace.duplicate_count))
  trace_counts vector_hits graph_hits r h =
      let f =
        weighted_rrf_v1-IsFusion floats same_value vector_hits graph_hits vector_weight graph_weight
          top_k r h in
      (
        f.inputs.0,
        f.inputs.1,
        f.outputs,
        omega (
          arith,
          f.inputs.0,
          f.inputs.1,
          f.outputs,
          f.duplicates,
          length-answer vector_hits graph_hits r h,
          all_ids-length (given vector_hits) (given graph_hits),
        ),
      )
