-- ===== src/Retrieval/Fusion/Errors.antt =====
-- How weighted_rrf_v1 can fail.
use oss.Prelude.{
  ℕ, suc, Bool, true, false, not, ◌&&◌, Option, none, some, List, [], ◌∷◌, map, ◌≡◌, refl, sym, ap,
  ◌∙◌, subst, inl, inr, ◌⊎◌, leb,
}
use oss.Prelude.Text.{Text, same_text, contains}
use oss.Core.Errors.{Result, ok, raise, raise_if, value_error, ◌>>=◌}
use oss.Core.Kinds.{BranchKind, vector, graph}
use oss.Planner.Plan.{one}
use oss.Retrieval.Hits.{RetrievalHit}
use oss.Retrieval.Fusion.{
  Floats, index_from, index_branch, find_hit, validate_weights, inconsistent, same_source, differs,
  texts_differ,
}
use oss.Retrieval.Fusion.Fused.{
  agree, require_consistent_evidence, candidates, all_ids, fuse_all, ranking, weighted_rrf_v1,
}
use oss.Retrieval.Fusion.Candidates.{given, index_branch-same, entry, candidates-entries}
use oss.Retrieval.Fusion.Total.{fuse_all-total, ranking-total, all_ids-Known}

-- The call returns, or raises ValueError or the error of inconsistent branches.
abbrev pub IsExpected {ℓ} : {A : Type ℓ} → Result A → Type 0
IsExpected (ok _) = Unit
IsExpected (raise e) = (e ≡ value_error) ⊎ (e ≡ inconsistent)

pub IsExpected-then {ℓ κ} :
    {A : Type ℓ} {B : Type κ} (call : Result A) (next : A → Result B)
    → IsExpected call
    → ((a : A) → call ≡ ok a → IsExpected (next a))
    → IsExpected (call >>= next)
IsExpected-then (ok a) next h k = k a refl
IsExpected-then (raise e) next h k = h

IsExpected-returns {ℓ} : {A : Type ℓ} (call : Result A) → (a : A) × (call ≡ ok a) → IsExpected call
IsExpected-returns call (a, e) = rw e tt

pub guard-IsExpected : (test : Bool) → IsExpected (raise_if test value_error)
guard-IsExpected true = inl refl
guard-IsExpected false = tt

pub check-IsExpected : (test : Bool) → IsExpected (raise_if test inconsistent)
check-IsExpected true = inr refl
check-IsExpected false = tt

module _ {Score Json : Type 0} where
  index_from-IsExpected :
      (source : BranchKind) (rank : ℕ) (seen : List Text) (hits : List (RetrievalHit Score Json))
      → IsExpected (index_from source rank seen hits)
  unfolding index_from
  index_from-IsExpected source rank seen [] = tt
  index_from-IsExpected source rank seen (x ∷ hits) =
      IsExpected-then (raise_if (not (same_source x.source source)) inconsistent) _
        (check-IsExpected _)
        λ _ _.
          IsExpected-then (raise_if (differs x.rank rank) inconsistent) _ (check-IsExpected _)
            λ _ _.
              IsExpected-then (raise_if (contains x.canonical_chunk_id seen) inconsistent) _
                (check-IsExpected _)
                λ _ _.
                  IsExpected-then (index_from source (suc rank) (x.canonical_chunk_id ∷ seen) hits)
                    _ (index_from-IsExpected source (suc rank) (x.canonical_chunk_id ∷ seen) hits)
                    λ _ _. tt

  pub index_branch-IsExpected :
      (hits : Option (List (RetrievalHit Score Json))) (source : BranchKind)
      → IsExpected (index_branch hits source)
  unfolding index_branch
  index_branch-IsExpected none source = tt
  index_branch-IsExpected (some hits) source = index_from-IsExpected source 1 [] hits

module _ {Score Json : Type 0} (floats : Floats Score) (same_value : Json → Json → Bool) where
  agree-IsExpected :
      (v g : Option (RetrievalHit Score Json)) → IsExpected (agree floats same_value v g)
  unfolding require_consistent_evidence
  agree-IsExpected none g = tt
  agree-IsExpected (some v) none = tt
  agree-IsExpected (some v) (some g) =
      IsExpected-then (raise_if (not (same_text v.text g.text)) inconsistent) _ (check-IsExpected _)
        λ _ _.
          IsExpected-then (raise_if (texts_differ v.document_id g.document_id) inconsistent) _
            (check-IsExpected _) λ _ _. check-IsExpected _

  candidates-IsExpected :
      (vs gs : List (RetrievalHit Score Json)) (xs : List Text)
      → IsExpected (candidates floats same_value vs gs xs)
  unfolding candidates
  candidates-IsExpected vs gs [] = tt
  candidates-IsExpected vs gs (x ∷ xs) =
      IsExpected-then (agree floats same_value (find_hit vs x) (find_hit gs x)) _
        (agree-IsExpected (find_hit vs x) (find_hit gs x))
        λ _ _.
          IsExpected-then (candidates floats same_value vs gs xs) _ (candidates-IsExpected vs gs xs)
            λ _ _. tt

  -- A fusion returns, or raises ValueError for its weights or its `top_k`, or the error CORPUS_INCONSISTENT for what the
  -- branches found: none of its assertions fails and none of its look-ups misses.
  pub weighted_rrf_v1-IsExpected :
      (vector_hits graph_hits : Option (List (RetrievalHit Score Json)))
      (vector_weight graph_weight top_k : ℕ)
      → IsExpected (
          weighted_rrf_v1 floats same_value vector_hits graph_hits vector_weight graph_weight top_k)
  unfolding weighted_rrf_v1 validate_weights
  weighted_rrf_v1-IsExpected vector_hits graph_hits a b top_k =
      IsExpected-then (validate_weights a b) _
        (IsExpected-then (raise_if (not (leb a one && leb b one)) value_error) _
          (guard-IsExpected _) λ _ _. guard-IsExpected _)
        λ _ _.
          IsExpected-then (raise_if (not (leb 1 top_k && leb top_k 50)) value_error) _
            (guard-IsExpected _)
            λ _ _.
              IsExpected-then (index_branch vector_hits vector) _
                (index_branch-IsExpected vector_hits vector)
                λ vs v.
                  IsExpected-then (index_branch graph_hits graph) _
                    (index_branch-IsExpected graph_hits graph)
                    λ gs g.
                      IsExpected-then (candidates floats same_value vs gs (all_ids vs gs)) _
                        (candidates-IsExpected vs gs (all_ids vs gs))
                        λ cs c.
                          let same =
                            candidates-entries floats same_value vs gs (all_ids vs gs) cs c
                            ∙ ap (λ vs. map (entry vs gs) (all_ids vs gs))
                                (index_branch-same vector_hits vector vs v)
                            ∙ ap
                                (λ gs.
                                  map (entry (given vector_hits) gs)
                                    (all_ids (given vector_hits) gs))
                                (index_branch-same graph_hits graph gs g) in
                          let (fused, f) =
                            fuse_all-total floats same_value vector_hits graph_hits a b _
                              (all_ids-Known (given vector_hits) (given graph_hits)) in
                          IsExpected-then (fuse_all floats same_value vector_hits graph_hits a b cs)
                            _
                            (IsExpected-returns _ (
                              fused,
                              subst
                                  (λ cs.
                                    fuse_all floats same_value vector_hits graph_hits a b cs
                                    ≡ ok fused)
                                  (sym same) f,
                            ))
                            λ fused' _.
                              let (hits, r) =
                                ranking-total floats same_value vector_hits graph_hits a b top_k
                                  fused' in
                              IsExpected-then
                                (ranking floats same_value vector_hits graph_hits a b top_k cs
                                  fused')
                                _
                                (IsExpected-returns _ (
                                  hits,
                                  subst
                                      (λ cs.
                                        ranking floats same_value vector_hits graph_hits a b top_k
                                          cs fused'
                                        ≡ ok hits)
                                      (sym same) r,
                                ))
                                λ _ _. tt
