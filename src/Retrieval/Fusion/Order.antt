-- ===== src/Retrieval/Fusion/Order.antt =====
-- The order of the result of weighted_rrf_v1.
pub mod Counts
use mathlib.Core.List.{Perm}
use mathlib.Core.List.Perm
use oss.Prelude.{
  ℕ, zero, suc, ◌+◌, ◌-◌, min, Bool, not, ◌&&◌, Option, none, some, List, [], ◌∷◌, map, ◌≡◌, refl,
  sym, ap, ◌∙◌, subst, inl, inr, ◌⊎◌, length, take, length-take, length-append, take-map, keep,
  count_of, leb,
}
use oss.Prelude.Text.{Text, contains}
use oss.Prelude.Sorting.{length-sort_by}
use oss.Core.Errors.{Result, ok, raise_if, value_error, on_return, ok_injective}
use oss.Core.Kinds.{vector, graph}
use oss.Retrieval.Hits.{RetrievalHit}
use oss.Retrieval.Fusion.{Floats, Candidate, FusionResult, index_branch, ids, validate_weights}
use oss.Retrieval.Fusion.Fused.{
  candidates, all_ids, fuse_all, in_order, rank_sole, ranking, weighted_rrf_v1,
}
use oss.Retrieval.Fusion.Candidates.{
  given, index_branch-same, entry, candidate, candidates-entries, fuse_all-ids, in_order-entries,
  rank_sole-ids, ids-ranked,
}

module _ {Score Json : Type 0} (floats : Floats Score) (same_value : Json → Json → Bool)
    (vector_hits graph_hits : Option (List (RetrievalHit Score Json)))
    (vector_weight graph_weight top_k : ℕ) where
  abbrev table :
      List (RetrievalHit Score Json)
      → List (RetrievalHit Score Json)
      → List (Text × Candidate Score Json)
  table vs gs = map (entry vs gs) (all_ids vs gs)

  abbrev rank_all :
      List (Text × Candidate Score Json)
      → List (RetrievalHit Score Json)
      → Result (List (RetrievalHit Score Json))
  rank_all cs fused =
      ranking floats same_value vector_hits graph_hits vector_weight graph_weight top_k cs fused

  abbrev overlap : List (RetrievalHit Score Json) → List (RetrievalHit Score Json) → ℕ
  overlap vs gs = count_of (λ x. contains x (ids vs)) (ids gs)

  -- The parts of a fusion that returns.
  pub record IsFusion (r : FusionResult Score Json) : Type 0 where
    pub fused : List (RetrievalHit Score Json)
    pub names : ids fused ≡ all_ids (given vector_hits) (given graph_hits)
    pub hits : rank_all (table (given vector_hits) (given graph_hits)) fused ≡ ok r.hits
    pub inputs :
        (r.trace.vector_input_count ≡ length (given vector_hits))
        × (r.trace.graph_input_count ≡ length (given graph_hits))
    pub duplicates : r.trace.duplicate_count ≡ overlap (given vector_hits) (given graph_hits)
    pub outputs : r.trace.output_count ≡ length r.hits

  pub weighted_rrf_v1-IsFusion :
      (r : FusionResult Score Json)
      → weighted_rrf_v1 floats same_value vector_hits graph_hits vector_weight graph_weight top_k
        ≡ ok r
      → IsFusion r
  unfolding weighted_rrf_v1
  weighted_rrf_v1-IsFusion r h =
      on_return _ (validate_weights vector_weight graph_weight) r h λ _ _ h1.
        on_return _ (raise_if (not (leb 1 top_k && leb top_k 50)) value_error) r h1 λ _ _ h2.
          on_return _ (index_branch vector_hits vector) r h2 λ vs a h3.
            on_return _ (index_branch graph_hits graph) r h3 λ gs b h4.
              on_return _ (candidates floats same_value vs gs (all_ids vs gs)) r h4 λ cs c h5.
                on_return _
                  (fuse_all floats same_value vector_hits graph_hits vector_weight graph_weight cs)
                  r h5
                  λ fused d h6.
                    on_return _
                      (ranking floats same_value vector_hits graph_hits vector_weight graph_weight
                        top_k cs fused)
                      r h6
                      λ hits e h7.
                        let va = index_branch-same vector_hits vector vs a in
                        let gb = index_branch-same graph_hits graph gs b in
                        let entries =
                          candidates-entries floats same_value vs gs (all_ids vs gs) cs c in
                        let same = ok_injective h7 in
                        record {
                          fused = fused;
                          names =
                              fuse_all-ids floats same_value vector_hits graph_hits vector_weight
                                graph_weight vs gs (all_ids vs gs) fused
                                (subst
                                  (λ cs.
                                    fuse_all floats same_value vector_hits graph_hits vector_weight
                                      graph_weight cs
                                    ≡ ok fused)
                                  entries d)
                              ∙ ap (λ vs. all_ids vs gs) va
                              ∙ ap (all_ids (given vector_hits)) gb;
                          hits =
                              subst
                                (λ (r : FusionResult Score Json).
                                  rank_all (table (given vector_hits) (given graph_hits)) fused
                                  ≡ ok r.hits)
                                same
                                (subst (λ cs. rank_all cs fused ≡ ok hits)
                                  (entries
                                    ∙ ap (λ vs. table vs gs) va
                                    ∙ ap (table (given vector_hits)) gb)
                                  e);
                          inputs = (
                            sym (
                                  ap (λ (r : FusionResult Score Json). r.trace.vector_input_count)
                                    same)
                                ∙ ap length va,
                            sym (
                                  ap (λ (r : FusionResult Score Json). r.trace.graph_input_count)
                                    same)
                                ∙ ap length gb,
                          );
                          duplicates =
                              sym
                                (ap (λ (r : FusionResult Score Json). r.trace.duplicate_count) same)
                              ∙ ap (λ vs. overlap vs gs) va
                              ∙ ap (overlap (given vector_hits)) gb;
                          outputs =
                              sym (ap (λ (r : FusionResult Score Json). r.trace.output_count) same)
                              ∙ ap (λ (r : FusionResult Score Json). length r.hits) same;
                        }

module _ {Score Json : Type 0} (floats : Floats Score) (same_value : Json → Json → Bool)
    (vector_weight graph_weight top_k : ℕ) where
  -- Where a branch is missing, the answer has the first `top_k` identifiers of the other branch, in its order.
  pub sole_branch_keeps_order :
      (vs : List (RetrievalHit Score Json)) (r : FusionResult Score Json)
      → (weighted_rrf_v1 floats same_value (some vs) none vector_weight graph_weight top_k ≡ ok r)
        ⊎ (weighted_rrf_v1 floats same_value none (some vs) vector_weight graph_weight top_k ≡ ok r)
      → ids r.hits ≡ take top_k (ids vs)
  unfolding ranking
  sole_branch_keeps_order vs r (inl h) =
      let f =
        weighted_rrf_v1-IsFusion floats same_value (some vs) none vector_weight graph_weight top_k r
          h in
      on_return _ (in_order (map (entry vs []) (all_ids vs [])) (ids vs)) r.hits f.hits
        λ ordered a h1.
          let entries =
            in_order-entries floats same_value vs [] (all_ids vs []) (ids vs) ordered a in
          let cut = ap (take top_k) entries ∙ take-map (candidate vs []) top_k (ids vs) in
          rank_sole-ids floats same_value vector vector_weight graph_weight 1 vs []
            (take top_k (ids vs)) r.hits
            (subst
              (λ cs. rank_sole floats same_value vector vector_weight graph_weight 1 cs ≡ ok r.hits)
              cut h1)
  sole_branch_keeps_order vs r (inr h) =
      let f =
        weighted_rrf_v1-IsFusion floats same_value none (some vs) vector_weight graph_weight top_k r
          h in
      on_return _ (in_order (map (entry [] vs) (all_ids [] vs)) (ids vs)) r.hits f.hits
        λ ordered a h1.
          let entries =
            in_order-entries floats same_value [] vs (all_ids [] vs) (ids vs) ordered a in
          let cut = ap (take top_k) entries ∙ take-map (candidate [] vs) top_k (ids vs) in
          rank_sole-ids floats same_value graph vector_weight graph_weight 1 [] vs
            (take top_k (ids vs)) r.hits
            (subst
              (λ cs. rank_sole floats same_value graph vector_weight graph_weight 1 cs ≡ ok r.hits)
              cut h1)
