-- ===== src/Retrieval/Provenance.antt =====
-- The validators of RetrievalContribution and RetrievalHit of src/ragplan/core/models.py, and that the hits of a fusion meet
-- them. Texts are taken over from the hits of the branches, where they have been validated.
use oss.Prelude.{
  ℕ, ◌≤◌, Bool, true, false, not, ◌&&◌, Option, none, some, List, [], ◌∷◌, map, leb, ◌≡◌, refl,
  subst, arith, All,
}
use oss.Core.Errors.{Result, ok, raise_if, value_error, ok_injective, ◌>>◌}
use oss.Core.Kinds.{BranchKind, vector, graph, same_kind}
use oss.Planner.Plan.{one}
use oss.Retrieval.Hits.{
  RetrievalHit, RetrievalContribution, HitSource, fusion, from_branch, is_canonical,
}
use oss.Retrieval.Fusion.{Floats}
use oss.Retrieval.Fusion.Fused.{fused_hit, contribution}
use mathlib.Core.List.{foldl}

abbrev same_kinds : List BranchKind → List BranchKind → Bool
same_kinds [] [] = true
same_kinds (k ∷ ks) (l ∷ ls) = same_kind k l && same_kinds ks ls
same_kinds _ _ = false

abbrev has_graph : List BranchKind → Bool
has_graph [] = false
has_graph (vector ∷ ks) = has_graph ks
has_graph (graph ∷ ks) = true

abbrev is_fused : HitSource → Bool
is_fused fusion = true
is_fused (from_branch k) = false

abbrev is_none_left {ℓ} : {A : Type ℓ} → List A → Bool
is_none_left [] = true
is_none_left (_ ∷ _) = false

abbrev positive : Option ℕ → Bool
positive none = true
positive (some n) = leb 1 n

and_false : (b : Bool) → (b && false) ≡ false
and_false true = refl
and_false false = refl

-- `close` is `math.isclose` within 10⁻¹⁵.
module _ {Score Json : Type 0} (floats : Floats Score) (close : Score → Score → Bool) where
  -- RetrievalContribution._check_weighted_rrf, with the ranges of the fields
  unfoldable pub check_contribution : RetrievalContribution Score Json → Result (Unit {0})
  check_contribution c = do
    raise_if (not (leb 1 c.original_rank && leb c.weight one)) value_error
    raise_if (not (close c.rrf_contribution (floats.rrf_share c.weight c.original_rank)))
        value_error

  abbrev total : List (RetrievalContribution Score Json) → Score
  total cs =
      foldl (λ s (x : RetrievalContribution Score Json). floats.add s x.rrf_contribution)
        floats.zero_score cs

  -- RetrievalHit._check_provenance, with the range of the rank; a list in canonical order has no repetition
  unfoldable pub check_provenance : RetrievalHit Score Json → Result (Unit {0})
  check_provenance h = do
    let kinds = map (λ (x : RetrievalContribution Score Json). x.source) h.source_contributions
    raise_if (not (positive h.rank)) value_error
    raise_if (not (is_canonical kinds)) value_error
    raise_if (not (same_kinds h.sources kinds)) value_error
    raise_if (is_fused h.source && is_none_left h.source_contributions) value_error
    raise_if (is_fused h.source && not (close h.score (total h.source_contributions))) value_error
    raise_if (is_fused h.source && (not (is_none_left h.paths) && not (has_graph kinds)))
        value_error

  module _ (same_value : Json → Json → Bool) (reflexive : (s : Score) → close s s ≡ true) where
    -- A rank that a fusion counts, from 1
    abbrev pub AtLeastOne : Option ℕ → Type 0
    AtLeastOne none = Unit
    AtLeastOne (some n) = 1 ≤ n

    contribution-IsValid :
        (hit : RetrievalHit Score Json) (k : BranchKind) (rank weight : ℕ)
        → 1 ≤ rank
        → weight ≤ one
        → check_contribution (contribution floats same_value hit k rank weight) ≡ ok tt
    unfolding check_contribution contribution
    contribution-IsValid hit k rank weight low high =
        let same = reflexive (floats.rrf_share weight rank) in ground arith

    abbrev IsValid : RetrievalHit Score Json → Type 0
    IsValid h =
        (check_provenance h ≡ ok tt)
        × All (λ (c : RetrievalContribution Score Json). check_contribution c ≡ ok tt)
            h.source_contributions

    -- Each hit that a fusion builds passes the validators of its contributions and its own, where its ranks are counted from 1
    -- and the weights are fractions; `math.isclose` is assumed to hold of a score and itself.
    pub fused_hit-IsValid :
        (v g : Option (RetrievalHit Score Json)) (vector_rank graph_rank : Option ℕ)
        (vector_weight graph_weight : ℕ) (h : RetrievalHit Score Json)
        → AtLeastOne vector_rank
        → AtLeastOne graph_rank
        → vector_weight ≤ one
        → graph_weight ≤ one
        → fused_hit floats same_value
            (record { vector_hit = v; graph_hit = g })
            vector_rank
            graph_rank
            vector_weight
            graph_weight
          ≡ ok h
        → IsValid h
    unfolding fused_hit check_provenance
    fused_hit-IsValid none none vr gr a b h lv lg wa wb e = absurd (cc)
    fused_hit-IsValid (some x) none none gr a b h lv lg wa wb e = absurd (cc)
    fused_hit-IsValid (some x) none (some n) gr a b h lv lg wa wb e =
        subst IsValid (ok_injective e)
          (rw reflexive refl, (contribution-IsValid x vector n a lv wa, tt))
    fused_hit-IsValid none (some y) vr none a b h lv lg wa wb e = absurd (cc)
    fused_hit-IsValid none (some y) vr (some m) a b h lv lg wa wb e =
        subst IsValid (ok_injective e)
          (rw (reflexive, and_false) refl, (contribution-IsValid y graph m b lg wb, tt))
    fused_hit-IsValid (some x) (some y) none gr a b h lv lg wa wb e = absurd (cc)
    fused_hit-IsValid (some x) (some y) (some n) none a b h lv lg wa wb e = absurd (cc)
    fused_hit-IsValid (some x) (some y) (some n) (some m) a b h lv lg wa wb e =
        subst IsValid (ok_injective e) (
          rw (reflexive, and_false) refl,
          (contribution-IsValid x vector n a lv wa, (contribution-IsValid y graph m b lg wb, tt)),
        )
