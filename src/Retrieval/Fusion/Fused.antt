-- ===== src/Retrieval/Fusion/Fused.antt =====
-- weighted_rrf_v1 and annotate_single_source of src/ragplan/retrieval/fusion.py. A failed assertion is
-- `other_exception`. The validators of the hits that are built stand in Retrieval/Provenance.
use mathlib.Core.List.{foldl}
use oss.Prelude.{
  ℕ, suc, Bool, true, false, not, ◌&&◌, ◌||◌, Option, none, some, List, [], ◌∷◌, ◌++◌, map, leb,
  length, take, count_of, keep, if◌then◌else◌,
}
use oss.Prelude.Text.{Text, codes, same_text, contains, starts_with}
use oss.Prelude.Sorting.{sort_by}
use oss.Prelude.Compare.{compare_lists, compare_texts, at_most}
use oss.Core.Errors.{
  Result, ok, raise, value_error, key_error, other_exception, raise_if, ◌>>=◌, ◌>>◌,
}
use oss.Core.Kinds.{BranchKind, vector, graph}
use oss.Planner.Plan.{one}
use oss.Retrieval.Hits.{fusion, GraphPath, RetrievalContribution, RetrievalHit}
use oss.Retrieval.Fusion.{
  Floats, Candidate, FusionResult, inconsistent, branch_native_metadata_keys, validate_weights,
  texts_differ, compare_paths, is_same, distinct, ids, index_branch, find_hit, rank_of,
  max_graph_paths_per_hit,
}

abbrev pub is_native : Text → Bool
unfolding contains starts_with
is_native key =
    contains key branch_native_metadata_keys
    || (starts_with (codes "native_") key || starts_with (codes "graph_") key)

abbrev value_of : {Json : Type 0} → List (Text × Json) → Text → Option Json
unfolding same_text
value_of [] key = none
value_of ((k, v) ∷ rest) key =
    let other = value_of rest key in if same_text k key then some v else other

abbrev pub rank_for : BranchKind → BranchKind → ℕ → Option ℕ
rank_for vector vector rank = some rank
rank_for graph graph rank = some rank
rank_for _ _ rank = none

module _ {Score Json : Type 0} where
  abbrev pub primary_hit : Candidate Score Json → Result (RetrievalHit Score Json)
  primary_hit c = elim c.vector_hit [
    | some h ↦ ok h
    | none ↦ elim c.graph_hit [ some h ↦ ok h | none ↦ raise other_exception ]
  ]

  abbrev entities : Option (RetrievalHit Score Json) → List Text
  entities none = []
  entities (some h) = h.entity_ids

  abbrev graph_paths : Option (RetrievalHit Score Json) → List (GraphPath Score)
  graph_paths none = []
  graph_paths (some h) = h.paths

  abbrev document_of : RetrievalHit Score Json → Option (RetrievalHit Score Json) → Option Text
  document_of primary g = elim primary.document_id [
    | some d ↦ some d
    | none ↦ elim g [ some h ↦ h.document_id | none ↦ none ]
  ]

  -- `hit.model_copy(update={"rank": rank})` over `enumerate(hits, 1)`
  unfoldable pub ranked : ℕ → List (RetrievalHit Score Json) → List (RetrievalHit Score Json)
  ranked rank [] = []
  ranked rank (h ∷ hits) = record h { rank = some rank } ∷ ranked (suc rank) hits

  -- `set(vector_by_id) | set(graph_by_id)`
  abbrev pub all_ids : List (RetrievalHit Score Json) → List (RetrievalHit Score Json) → List Text
  all_ids vs gs = ids vs ++ keep (λ x. not (contains x (ids vs))) (ids gs)

  -- `candidates[canonical_id]` for each identifier
  unfoldable pub candidate_of :
      List (Text × Candidate Score Json) → Text → Result (Candidate Score Json)
  unfolding same_text
  candidate_of [] x = raise key_error
  candidate_of ((y, c) ∷ rest) x =
      let other = candidate_of rest x in if same_text y x then ok c else other

  unfoldable pub in_order :
      List (Text × Candidate Score Json) → List Text → Result (List (Candidate Score Json))
  unfolding candidate_of
  in_order cs [] = ok []
  in_order cs (x ∷ xs) = do c ← candidate_of cs x; rest ← in_order cs xs; ok (c ∷ rest)

  abbrev pub missing : Option (List (RetrievalHit Score Json)) → BranchKind → List BranchKind
  missing none branch = branch ∷ []
  missing (some _) branch = []

module _ {Score Json : Type 0} (floats : Floats Score) (same_value : Json → Json → Bool) where
  abbrev disagree : List (Text × Json) → Text → Json → Bool
  disagree metadata key v = elim (value_of metadata key) [
    | none ↦ false
    | some w ↦ not (same_value v w)
  ]

  abbrev conflicts : List (Text × Json) → List (Text × Json) → Bool
  conflicts [] metadata = false
  conflicts ((key, v) ∷ rest) metadata =
      let others = conflicts rest metadata in
      if not (is_native key) && disagree metadata key v then true else others

  -- _require_consistent_evidence
  unfoldable pub require_consistent_evidence :
      RetrievalHit Score Json → RetrievalHit Score Json → Result (Unit {0})
  unfolding inconsistent same_text
  require_consistent_evidence v g = do
    raise_if (not (same_text v.text g.text)) inconsistent
    raise_if (texts_differ v.document_id g.document_id) inconsistent
    raise_if (conflicts v.metadata g.metadata) inconsistent

  -- _contribution
  unfoldable pub contribution :
      RetrievalHit Score Json → BranchKind → ℕ → ℕ → RetrievalContribution Score Json
  contribution h source rank weight = record {
    source = source;
    original_rank = rank;
    original_score = h.score;
    weight = weight;
    rrf_contribution = floats.rrf_share weight rank;
    metadata = h.metadata;
  }

  -- `unique[key] = path` where the key is new or the path scores more
  abbrev pub keep_best : List (GraphPath Score) → GraphPath Score → List (GraphPath Score)
  unfolding compare_paths
  keep_best [] p = p ∷ []
  keep_best (q ∷ qs) p =
      let rest = keep_best qs p in
      if is_same (compare_paths q p)
      then (if floats.less q.score p.score then p ∷ qs else q ∷ qs)
      else q ∷ rest

  abbrev pub path_before : GraphPath Score → GraphPath Score → Bool
  unfolding compare_paths
  path_before p q =
      if floats.less q.score p.score
      then true
      else if floats.less p.score q.score
      then false
      else at_most (compare_paths p q)

  -- _deduplicate_paths
  unfoldable pub deduplicate_paths : List (GraphPath Score) → List (GraphPath Score)
  unfolding sort_by
  deduplicate_paths paths =
      take max_graph_paths_per_hit (sort_by path_before (foldl keep_best [] paths))

  -- What a branch contributes; a hit without a rank fails an assertion.
  unfoldable pub contributed :
      Option (RetrievalHit Score Json)
      → Option ℕ
      → BranchKind
      → ℕ
      → Result (List (RetrievalContribution Score Json))
  unfolding contribution
  contributed none rank source weight = ok []
  contributed (some h) none source weight = raise other_exception
  contributed (some h) (some rank) source weight = ok (contribution h source rank weight ∷ [])

  -- _fused_hit
  unfoldable pub fused_hit :
      Candidate Score Json → Option ℕ → Option ℕ → ℕ → ℕ → Result (RetrievalHit Score Json)
  unfolding contributed deduplicate_paths sort_by compare_lists contains
  fused_hit c vector_rank graph_rank vector_weight graph_weight = do
    primary ← primary_hit c
    from_vector ← contributed c.vector_hit vector_rank vector vector_weight
    from_graph ← contributed c.graph_hit graph_rank graph graph_weight
    let contributions = from_vector ++ from_graph
    ok (record {
      canonical_chunk_id = primary.canonical_chunk_id;
      text = primary.text;
      score =
          foldl (λ s (x : RetrievalContribution Score Json). floats.add s x.rrf_contribution)
            floats.zero_score contributions;
      source = fusion;
      document_id = document_of primary c.graph_hit;
      entity_ids =
          sort_by (λ x y. at_most (compare_texts x y))
            (distinct (entities c.vector_hit ++ entities c.graph_hit));
      metadata = primary.metadata;
      rank = none;
      paths = deduplicate_paths (graph_paths c.graph_hit);
      sources = map (λ (x : RetrievalContribution Score Json). x.source) contributions;
      source_contributions = contributions;
    })

  -- `key=lambda hit: (-hit.score, hit.canonical_chunk_id)`
  unfoldable pub hit_before : RetrievalHit Score Json → RetrievalHit Score Json → Bool
  unfolding compare_lists
  hit_before p q =
      if floats.less q.score p.score
      then true
      else if floats.less p.score q.score
      then false
      else at_most (compare_texts p.canonical_chunk_id q.canonical_chunk_id)

  abbrev pub agree :
      Option (RetrievalHit Score Json) → Option (RetrievalHit Score Json) → Result (Unit {0})
  unfolding require_consistent_evidence
  agree (some v) (some g) = require_consistent_evidence v g
  agree _ _ = ok tt

  -- The loop over all identifiers
  unfoldable pub candidates :
      List (RetrievalHit Score Json)
      → List (RetrievalHit Score Json)
      → List Text
      → Result (List (Text × Candidate Score Json))
  unfolding find_hit require_consistent_evidence
  candidates vs gs [] = ok []
  candidates vs gs (x ∷ xs) = do
    agree (find_hit vs x) (find_hit gs x)
    rest ← candidates vs gs xs
    ok ((x, record { vector_hit = find_hit vs x; graph_hit = find_hit gs x }) ∷ rest)

  module _ (vector_hits graph_hits : Option (List (RetrievalHit Score Json)))
      (vector_weight graph_weight : ℕ) where
    -- `fused`
    unfoldable pub fuse_all :
        List (Text × Candidate Score Json) → Result (List (RetrievalHit Score Json))
    unfolding fused_hit rank_of
    fuse_all [] = ok []
    fuse_all ((x, c) ∷ rest) = do
      h ← fused_hit c (rank_of vector_hits x) (rank_of graph_hits x) vector_weight graph_weight
      hits ← fuse_all rest
      ok (h ∷ hits)

  -- The hits of a sole branch, in its order
  unfoldable pub rank_sole :
      BranchKind → ℕ → ℕ → ℕ → List (Candidate Score Json) → Result (List (RetrievalHit Score Json))
  unfolding fused_hit
  rank_sole branch vector_weight graph_weight rank [] = ok []
  rank_sole branch vector_weight graph_weight rank (c ∷ cs) = do
    h ←
        fused_hit c (rank_for vector branch rank) (rank_for graph branch rank) vector_weight
          graph_weight
    rest ← rank_sole branch vector_weight graph_weight (suc rank) cs
    ok (record h { rank = some rank } ∷ rest)

  -- Each branch's hits, the weights, all candidates and all fused hits give the final ranking.
  unfoldable pub ranking :
      Option (List (RetrievalHit Score Json))
      → Option (List (RetrievalHit Score Json))
      → ℕ
      → ℕ
      → ℕ
      → List (Text × Candidate Score Json)
      → List (RetrievalHit Score Json)
      → Result (List (RetrievalHit Score Json))
  unfolding in_order rank_sole ranked sort_by hit_before
  ranking none (some hits) vector_weight graph_weight top_k cs fused = do
    ordered ← in_order cs (ids hits)
    rank_sole graph vector_weight graph_weight 1 (take top_k ordered)
  ranking (some hits) none vector_weight graph_weight top_k cs fused = do
    ordered ← in_order cs (ids hits)
    rank_sole vector vector_weight graph_weight 1 (take top_k ordered)
  ranking _ _ vector_weight graph_weight top_k cs fused =
      ok (ranked 1 (take top_k (sort_by hit_before fused)))

  -- weighted_rrf_v1
  unfoldable pub weighted_rrf_v1 :
      Option (List (RetrievalHit Score Json))
      → Option (List (RetrievalHit Score Json))
      → ℕ
      → ℕ
      → ℕ
      → Result (FusionResult Score Json)
  unfolding validate_weights index_branch candidates fuse_all ranking contains
  weighted_rrf_v1 vector_hits graph_hits vector_weight graph_weight top_k = do
    validate_weights vector_weight graph_weight
    raise_if (not (leb 1 top_k && leb top_k 50)) value_error
    vs ← index_branch vector_hits vector
    gs ← index_branch graph_hits graph
    cs ← candidates vs gs (all_ids vs gs)
    fused ← fuse_all vector_hits graph_hits vector_weight graph_weight cs
    hits ← ranking vector_hits graph_hits vector_weight graph_weight top_k cs fused
    ok (record {
      hits = hits;
      trace = record {
        vector_input_count = length vs;
        graph_input_count = length gs;
        output_count = length hits;
        duplicate_count = count_of (λ x. contains x (ids vs)) (ids gs);
        missing_branches = missing vector_hits vector ++ missing graph_hits graph;
      };
    })

  -- The loop of annotate_single_source, with the rank of the next hit
  unfoldable pub annotated :
      BranchKind → ℕ → List (RetrievalHit Score Json) → List (RetrievalHit Score Json)
  unfolding contribution
  annotated source rank [] = []
  annotated source rank (h ∷ hits) =
      record h {
        rank = some rank;
        sources = source ∷ [];
        source_contributions = contribution h source rank one ∷ [];
      }
      ∷ annotated source (suc rank) hits

  -- annotate_single_source
  unfoldable pub annotate_single_source :
      List (RetrievalHit Score Json) → BranchKind → ℕ → Result (List (RetrievalHit Score Json))
  unfolding index_branch annotated
  annotate_single_source hits source top_k = do
    indexed ← index_branch (some hits) source
    let answer = annotated source 1 (take top_k hits)
    raise_if (not (leb (length answer) (length indexed))) other_exception
    ok answer
