-- ===== src/Retrieval/Fusion/Candidates.antt =====
-- What the loops of weighted_rrf_v1 build, in terms of the identifiers.
use oss.Prelude.{
  ℕ, suc, Bool, not, Option, none, some, List, [], ◌∷◌, map, ◌≡◌, refl, sym, ap, ◌∙◌, subst, inl,
  inr, Bool-cases,
}
use oss.Prelude.Text.{Text, same_text, same_text-eq, contains}
use oss.Core.Errors.{ok, raise_if, on_return, ok_injective}
use oss.Core.Kinds.{BranchKind, vector, graph}
use oss.Retrieval.Hits.{RetrievalHit}
use oss.Retrieval.Fusion.{
  Floats, Candidate, index_from, index_branch, find_hit, rank_of, ids, inconsistent, same_source,
  differs,
}
use oss.Retrieval.Fusion.Fused.{
  contributed, primary_hit, fused_hit, ranked, agree, candidates, fuse_all, candidate_of, in_order,
  rank_for, rank_sole,
}

module _ {Score Json : Type 0} where
  index_from-same :
      (source : BranchKind) (rank : ℕ) (seen : List Text)
      (hits out : List (RetrievalHit Score Json))
      → index_from source rank seen hits ≡ ok out
      → out ≡ hits
  unfolding index_from
  index_from-same source rank seen [] out h = sym (ok_injective h)
  index_from-same source rank seen (x ∷ hits) out h =
      on_return _ (raise_if (not (same_source x.source source)) inconsistent) out h λ _ _ h1.
        on_return _ (raise_if (differs x.rank rank) inconsistent) out h1 λ _ _ h2.
          on_return _ (raise_if (contains x.canonical_chunk_id seen) inconsistent) out h2 λ _ _ h3.
            on_return _ (index_from source (suc rank) (x.canonical_chunk_id ∷ seen) hits) out h3
              λ rest found h4.
                sym (ok_injective h4)
                ∙ ap (λ r. x ∷ r)
                    (index_from-same source (suc rank) (x.canonical_chunk_id ∷ seen) hits rest
                      found)

  -- The hits of a branch, none for a branch that is missing
  abbrev pub given : Option (List (RetrievalHit Score Json)) → List (RetrievalHit Score Json)
  given none = []
  given (some hits) = hits

  pub index_branch-same :
      (hits : Option (List (RetrievalHit Score Json))) (source : BranchKind)
      (out : List (RetrievalHit Score Json))
      → index_branch hits source ≡ ok out
      → out ≡ given hits
  unfolding index_branch
  index_branch-same none source out h = sym (ok_injective h)
  index_branch-same (some hits) source out h = index_from-same source 1 [] hits out h

  pub find_hit-id :
      (hits : List (RetrievalHit Score Json)) (x : Text) (h : RetrievalHit Score Json)
      → find_hit hits x ≡ some h
      → h.canonical_chunk_id ≡ x
  unfolding find_hit
  find_hit-id [] x h e = absurd (cc)
  find_hit-id (y ∷ hits) x h e = elim (Bool-cases (same_text y.canonical_chunk_id x)) [
    | inl here ↦
        let found = rw here at e in
        let q : y ≡ h = cc in subst (λ r. r.canonical_chunk_id ≡ x) q (same_text-eq _ _ here)
    | inr there ↦ find_hit-id hits x h (rw there at e)
  ]

  -- The candidate of an identifier
  abbrev pub candidate :
      List (RetrievalHit Score Json) → List (RetrievalHit Score Json) → Text → Candidate Score Json
  candidate vs gs x = record { vector_hit = find_hit vs x; graph_hit = find_hit gs x }

  abbrev pub entry :
      List (RetrievalHit Score Json)
      → List (RetrievalHit Score Json)
      → Text
      → Text × Candidate Score Json
  entry vs gs x = (x, candidate vs gs x)

  pub ids-ranked :
      (rank : ℕ) (hits : List (RetrievalHit Score Json)) → ids (ranked rank hits) ≡ ids hits
  unfolding ranked
  ids-ranked rank [] = refl
  ids-ranked rank (h ∷ hits) = ap (λ r. h.canonical_chunk_id ∷ r) (ids-ranked (suc rank) hits)

module _ {Score Json : Type 0} (floats : Floats Score) (same_value : Json → Json → Bool) where
  pub candidates-entries :
      (vs gs : List (RetrievalHit Score Json)) (xs : List Text)
      (cs : List (Text × Candidate Score Json))
      → candidates floats same_value vs gs xs ≡ ok cs
      → cs ≡ map (entry vs gs) xs
  unfolding candidates
  candidates-entries vs gs [] cs h = sym (ok_injective h)
  candidates-entries vs gs (x ∷ xs) cs h =
      on_return _ (agree floats same_value (find_hit vs x) (find_hit gs x)) cs h λ _ _ h1.
        on_return _ (candidates floats same_value vs gs xs) cs h1 λ rest found h2.
          sym (ok_injective h2)
          ∙ ap (λ r. entry vs gs x ∷ r) (candidates-entries vs gs xs rest found)

  primary_from :
      (v g : Option (RetrievalHit Score Json)) (x : Text) (p : RetrievalHit Score Json)
      → ((h : RetrievalHit Score Json) → v ≡ some h → h.canonical_chunk_id ≡ x)
      → ((h : RetrievalHit Score Json) → g ≡ some h → h.canonical_chunk_id ≡ x)
      → primary_hit (record { vector_hit = v; graph_hit = g }) ≡ ok p
      → p.canonical_chunk_id ≡ x
  primary_from (some v) g x p a b h =
      subst (λ (r : RetrievalHit Score Json). r.canonical_chunk_id ≡ x) (ok_injective h) (a v refl)
  primary_from none (some g) x p a b h =
      subst (λ (r : RetrievalHit Score Json). r.canonical_chunk_id ≡ x) (ok_injective h) (b g refl)
  primary_from none none x p a b h = absurd (cc)

  primary_hit-id :
      (vs gs : List (RetrievalHit Score Json)) (x : Text) (p : RetrievalHit Score Json)
      → primary_hit (candidate vs gs x) ≡ ok p
      → p.canonical_chunk_id ≡ x
  primary_hit-id vs gs x p h =
      primary_from (find_hit vs x) (find_hit gs x) x p (find_hit-id vs x) (find_hit-id gs x) h

  pub fused_hit-id :
      (vs gs : List (RetrievalHit Score Json)) (x : Text) (vector_rank graph_rank : Option ℕ)
      (a b : ℕ) (h : RetrievalHit Score Json)
      → fused_hit floats same_value (candidate vs gs x) vector_rank graph_rank a b ≡ ok h
      → h.canonical_chunk_id ≡ x
  unfolding fused_hit
  fused_hit-id vs gs x vector_rank graph_rank a b h e =
      on_return _ (primary_hit (candidate vs gs x)) h e λ p found e1.
        on_return _ (contributed floats same_value (find_hit vs x) vector_rank vector a) h e1
          λ cv _ e2.
            on_return _ (contributed floats same_value (find_hit gs x) graph_rank graph b) h e2
              λ cg _ e3.
                sym (ap (λ (r : RetrievalHit Score Json). r.canonical_chunk_id) (ok_injective e3))
                ∙ primary_hit-id vs gs x p found

  pub fuse_all-ids :
      (vector_hits graph_hits : Option (List (RetrievalHit Score Json))) (a b : ℕ)
      (vs gs : List (RetrievalHit Score Json)) (xs : List Text)
      (hits : List (RetrievalHit Score Json))
      → fuse_all floats same_value vector_hits graph_hits a b (map (entry vs gs) xs) ≡ ok hits
      → ids hits ≡ xs
  unfolding fuse_all
  fuse_all-ids vector_hits graph_hits a b vs gs [] hits h = sym (ap ids (ok_injective h))
  fuse_all-ids vector_hits graph_hits a b vs gs (x ∷ xs) hits h =
      on_return _
        (fused_hit floats same_value (candidate vs gs x) (rank_of vector_hits x)
          (rank_of graph_hits x) a b)
        hits h
        λ first made h1.
          on_return _ (fuse_all floats same_value vector_hits graph_hits a b (map (entry vs gs) xs))
            hits h1
            λ rest found h2.
              let here =
                fused_hit-id vs gs x (rank_of vector_hits x) (rank_of graph_hits x) a b first
                  made in
              let there = fuse_all-ids vector_hits graph_hits a b vs gs xs rest found in
              let same = ap ids (ok_injective h2) in cc

  candidate_of-entry :
      (vs gs : List (RetrievalHit Score Json)) (xs : List Text) (x : Text)
      (c : Candidate Score Json)
      → candidate_of (map (entry vs gs) xs) x ≡ ok c
      → c ≡ candidate vs gs x
  unfolding candidate_of
  candidate_of-entry vs gs [] x c h = absurd (cc)
  candidate_of-entry vs gs (y ∷ xs) x c h = elim (Bool-cases (same_text y x)) [
    | inl here ↦ sym (ok_injective (rw here at h)) ∙ ap (candidate vs gs) (same_text-eq y x here)
    | inr there ↦ candidate_of-entry vs gs xs x c (rw there at h)
  ]

  pub in_order-entries :
      (vs gs : List (RetrievalHit Score Json)) (all xs : List Text)
      (cs : List (Candidate Score Json))
      → in_order (map (entry vs gs) all) xs ≡ ok cs
      → cs ≡ map (candidate vs gs) xs
  unfolding in_order
  in_order-entries vs gs all [] cs h = sym (ok_injective h)
  in_order-entries vs gs all (x ∷ xs) cs h =
      on_return _ (candidate_of (map (entry vs gs) all) x) cs h λ c a h1.
        on_return _ (in_order (map (entry vs gs) all) xs) cs h1 λ rest b h2.
          let here = candidate_of-entry vs gs all x c a in
          let there = in_order-entries vs gs all xs rest b in let same = ok_injective h2 in cc

  pub rank_sole-ids :
      (branch : BranchKind) (a b rank : ℕ) (vs gs : List (RetrievalHit Score Json)) (xs : List Text)
      (hits : List (RetrievalHit Score Json))
      → rank_sole floats same_value branch a b rank (map (candidate vs gs) xs) ≡ ok hits
      → ids hits ≡ xs
  unfolding rank_sole
  rank_sole-ids branch a b rank vs gs [] hits h = sym (ap ids (ok_injective h))
  rank_sole-ids branch a b rank vs gs (x ∷ xs) hits h =
      on_return _
        (fused_hit floats same_value (candidate vs gs x) (rank_for vector branch rank)
          (rank_for graph branch rank) a b)
        hits h
        λ first made h1.
          on_return _ (rank_sole floats same_value branch a b (suc rank) (map (candidate vs gs) xs))
            hits h1
            λ rest found h2.
              let here = fused_hit-id vs gs x _ _ a b first made in
              let there = rank_sole-ids branch a b (suc rank) vs gs xs rest found in
              let same = ap ids (ok_injective h2) in cc
