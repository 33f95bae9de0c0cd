-- ===== src/Retrieval/Fusion/Total.antt =====
-- The look-ups and the assertions of weighted_rrf_v1 succeed.
use oss.Prelude.{
  take-map, ℕ, zero, suc, Bool, true, false, not, Option, none, some, List, [], ◌∷◌, ◌++◌, map, ◌≡◌,
  refl, sym, ap, ◌∙◌, subst, arith, inl, inr, ◌⊎◌, Bool-cases, take, keep, All, All-map, All-append,
}
use oss.Prelude.Text.{Text, same_text, same_text-eq, same_text_refl, contains}
use oss.Core.Errors.{ok, returns_then}
use oss.Core.Kinds.{BranchKind, vector, graph}
use oss.Retrieval.Hits.{RetrievalHit}
use oss.Retrieval.Fusion.{Floats, Candidate, ids, find_hit, rank_from, rank_of}
use oss.Retrieval.Fusion.Fused.{
  all_ids, contribution, contributed, primary_hit, fused_hit, fuse_all, candidate_of, in_order,
  rank_sole, ranking,
}
use oss.Retrieval.Fusion.Candidates.{given, entry, candidate, in_order-entries}

same_text-sym : (x y : Text) → same_text x y ≡ true → same_text y x ≡ true
same_text-sym x y h =
    let e = same_text-eq x y h in subst (λ z. same_text z x ≡ true) e (same_text_refl x)

contains-cons : (x y : Text) (ys : List Text) → contains x ys ≡ true → contains x (y ∷ ys) ≡ true
unfolding contains
contains-cons x y ys h = ground arith

contains-later :
    (x y : Text) (ys : List Text)
    → same_text y x ≡ false
    → contains x (y ∷ ys) ≡ true
    → contains x ys ≡ true
unfolding contains
contains-later x y ys a b = elim (Bool-cases (same_text x y)) [
  | inl c ↦ absurd (let d = same_text-sym x y c in cc)
  | inr c ↦ rw c at b
]

append_none {ℓ} : {A : Type ℓ} (xs : List A) → xs ++ [] ≡ xs
append_none [] = refl
append_none (x ∷ xs) = ap (λ r. x ∷ r) (append_none xs)

members_contained : (xs : List Text) → All (λ x. contains x xs ≡ true) xs
unfolding contains
members_contained [] = tt
members_contained (x ∷ xs) = (
  rw (same_text_refl x) refl,
  All-map _ _ xs (λ y h. contains-cons y x xs h) (members_contained xs),
)

All-keep {ℓ κ} :
    {A : Type ℓ} (P : A → Type κ) (p : A → Bool) (xs : List A) → All P xs → All P (keep p xs)
All-keep P p [] h = tt
All-keep P p (x ∷ xs) h = elim (Bool-cases (p x)) [
  | inl a ↦ rw a (h.0, All-keep P p xs h.1)
  | inr a ↦ rw a (All-keep P p xs h.1)
]

All-take {ℓ κ} : {A : Type ℓ} (P : A → Type κ) (n : ℕ) (xs : List A) → All P xs → All P (take n xs)
All-take P zero xs h = tt
All-take P (suc n) [] h = tt
All-take P (suc n) (x ∷ xs) h = (h.0, All-take P n xs h.1)

module _ {Score Json : Type 0} where
  find_hit-total :
      (hits : List (RetrievalHit Score Json)) (x : Text)
      → contains x (ids hits) ≡ true
      → (h : RetrievalHit Score Json) × (find_hit hits x ≡ some h)
  unfolding find_hit contains
  find_hit-total [] x h = absurd (cc)
  find_hit-total (y ∷ hits) x h = elim (Bool-cases (same_text y.canonical_chunk_id x)) [
    | inl here ↦ (y, rw here refl)
    | inr there ↦
        rw there (find_hit-total hits x (contains-later x y.canonical_chunk_id (ids hits) there h))
  ]

  rank_from-total :
      (rank : ℕ) (hits : List (RetrievalHit Score Json)) (x : Text) (h : RetrievalHit Score Json)
      → find_hit hits x ≡ some h
      → (n : ℕ) × (rank_from rank hits x ≡ some n)
  unfolding find_hit rank_from
  rank_from-total rank [] x h e = absurd (cc)
  rank_from-total rank (y ∷ hits) x h e = elim (Bool-cases (same_text y.canonical_chunk_id x)) [
    | inl here ↦ (rank, rw here refl)
    | inr there ↦ rw there (rank_from-total (suc rank) hits x h (rw there at e))
  ]

  rank_of-total :
      (hits : Option (List (RetrievalHit Score Json))) (x : Text) (h : RetrievalHit Score Json)
      → find_hit (given hits) x ≡ some h
      → (n : ℕ) × (rank_of hits x ≡ some n)
  unfolding find_hit rank_of
  rank_of-total none x h e = absurd (cc)
  rank_of-total (some hits) x h e = rank_from-total 1 hits x h e

  -- An identifier of one of the branches
  abbrev Known : List (RetrievalHit Score Json) → List (RetrievalHit Score Json) → Text → Type 0
  Known vs gs x = (contains x (ids vs) ≡ true) ⊎ (contains x (ids gs) ≡ true)

  pub all_ids-Known : (vs gs : List (RetrievalHit Score Json)) → All (Known vs gs) (all_ids vs gs)
  all_ids-Known vs gs =
      All-append (Known vs gs) (ids vs) (keep (λ x. not (contains x (ids vs))) (ids gs))
        (All-map _ (Known vs gs) (ids vs) (λ x h. inl h) (members_contained (ids vs)))
        (All-keep (Known vs gs) (λ x. not (contains x (ids vs))) (ids gs)
          (All-map _ (Known vs gs) (ids gs) (λ x h. inr h) (members_contained (ids gs))))

  primary_hit-total :
      (vs gs : List (RetrievalHit Score Json)) (x : Text)
      → Known vs gs x
      → (h : RetrievalHit Score Json) × (primary_hit (candidate vs gs x) ≡ ok h)
  primary_hit-total vs gs x (inl k) = let (h, e) = find_hit-total vs x k in (h, rw e refl)
  primary_hit-total vs gs x (inr k) =
      let (h, e) = find_hit-total gs x k in either (find_hit vs x) (find_hit gs x) h e
    where
      either :
          (v g : Option (RetrievalHit Score Json)) (h : RetrievalHit Score Json)
          → g ≡ some h
          → (p : RetrievalHit Score Json) × (primary_hit (record { vector_hit = v; graph_hit = g })
              ≡ ok p)
      either (some v) g h e = (v, refl)
      either none g h e = (h, rw e refl)

module _ {Score Json : Type 0} (floats : Floats Score) (same_value : Json → Json → Bool) where
  contributed-total :
      (hit : Option (RetrievalHit Score Json)) (rank : Option ℕ) (source : BranchKind) (weight : ℕ)
      → ((h : RetrievalHit Score Json) → hit ≡ some h → (n : ℕ) × (rank ≡ some n))
      → (cs : List _) × (contributed floats same_value hit rank source weight ≡ ok cs)
  unfolding contributed
  contributed-total none rank source weight k = ([], refl)
  contributed-total (some h) rank source weight k =
      let (n, e) = k h refl in (contribution floats same_value h source n weight ∷ [], rw e refl)

  fused_hit-total :
      (vs gs : List (RetrievalHit Score Json)) (x : Text) (vector_rank graph_rank : Option ℕ)
      (a b : ℕ)
      → Known vs gs x
      → ((h : RetrievalHit Score Json) → find_hit vs x ≡ some h → (n : ℕ) × (vector_rank ≡ some n))
      → ((h : RetrievalHit Score Json) → find_hit gs x ≡ some h → (n : ℕ) × (graph_rank ≡ some n))
      → (h : RetrievalHit Score Json) × (fused_hit floats same_value
            (candidate vs gs x)
            vector_rank
            graph_rank
            a
            b
          ≡ ok h)
  unfolding fused_hit
  fused_hit-total vs gs x vector_rank graph_rank a b known v g =
      let (p, e) = primary_hit-total vs gs x known in
      let (cv, e1) = contributed-total (find_hit vs x) vector_rank vector a v in
      let (cg, e2) = contributed-total (find_hit gs x) graph_rank graph b g in
      returns_then _ _ p e (returns_then _ _ cv e1 (returns_then _ _ cg e2 (_, refl)))

  module _ (vector_hits graph_hits : Option (List (RetrievalHit Score Json))) (a b : ℕ) where
    pub fuse_all-total :
        (xs : List Text)
        → All (Known (given vector_hits) (given graph_hits)) xs
        → (hits : List (RetrievalHit Score Json)) × (fuse_all floats same_value vector_hits
              graph_hits a b
              (map (entry (given vector_hits) (given graph_hits)) xs)
            ≡ ok hits)
    unfolding fuse_all
    fuse_all-total [] known = ([], refl)
    fuse_all-total (x ∷ xs) known =
        let (h, e) =
          fused_hit-total (given vector_hits) (given graph_hits) x (rank_of vector_hits x)
            (rank_of graph_hits x) a b known.0 (rank_of-total vector_hits x)
            (rank_of-total graph_hits x) in
        let (hits, f) = fuse_all-total xs known.1 in
        returns_then _ _ h e (returns_then _ _ hits f (h ∷ hits, refl))

  candidate_of-total :
      (vs gs : List (RetrievalHit Score Json)) (all : List Text) (x : Text)
      → contains x all ≡ true
      → (c : Candidate Score Json) × (candidate_of (map (entry vs gs) all) x ≡ ok c)
  unfolding candidate_of contains
  candidate_of-total vs gs [] x h = absurd (cc)
  candidate_of-total vs gs (y ∷ all) x h = elim (Bool-cases (same_text y x)) [
    | inl here ↦ (candidate vs gs y, rw here refl)
    | inr there ↦ rw there (candidate_of-total vs gs all x (contains-later x y all there h))
  ]

  in_order-total :
      (vs gs : List (RetrievalHit Score Json)) (all xs : List Text)
      → All (λ x. contains x all ≡ true) xs
      → (cs : List (Candidate Score Json)) × (in_order (map (entry vs gs) all) xs ≡ ok cs)
  unfolding in_order
  in_order-total vs gs all [] h = ([], refl)
  in_order-total vs gs all (x ∷ xs) h =
      let (c, e) = candidate_of-total vs gs all x h.0 in
      let (cs, f) = in_order-total vs gs all xs h.1 in
      returns_then _ _ c e (returns_then _ _ cs f (c ∷ cs, refl))

  vector_sole-total :
      (vs : List (RetrievalHit Score Json)) (a b rank : ℕ) (xs : List Text)
      → All (Known vs []) xs
      → (hits : List (RetrievalHit Score Json)) × (rank_sole floats same_value vector a b rank
            (map (candidate vs []) xs)
          ≡ ok hits)
  unfolding rank_sole find_hit
  vector_sole-total vs a b rank [] known = ([], refl)
  vector_sole-total vs a b rank (x ∷ xs) known =
      let (h, e) =
        fused_hit-total vs [] x (some rank) none a b known.0 (λ _ _. (rank, refl))
          (λ _ e. absurd (cc)) in
      let (hits, f) = vector_sole-total vs a b (suc rank) xs known.1 in
      returns_then _ _ h e (returns_then _ _ hits f (_, refl))

  graph_sole-total :
      (gs : List (RetrievalHit Score Json)) (a b rank : ℕ) (xs : List Text)
      → All (Known [] gs) xs
      → (hits : List (RetrievalHit Score Json)) × (rank_sole floats same_value graph a b rank
            (map (candidate [] gs) xs)
          ≡ ok hits)
  unfolding rank_sole find_hit
  graph_sole-total gs a b rank [] known = ([], refl)
  graph_sole-total gs a b rank (x ∷ xs) known =
      let (h, e) =
        fused_hit-total [] gs x none (some rank) a b known.0 (λ _ e. absurd (cc))
          (λ _ _. (rank, refl)) in
      let (hits, f) = graph_sole-total gs a b (suc rank) xs known.1 in
      returns_then _ _ h e (returns_then _ _ hits f (_, refl))

  keep_others :
      (xs ys : List Text)
      → All (λ x. contains x xs ≡ true) ys
      → All (λ x. contains x (xs ++ []) ≡ true) ys
  keep_others xs ys h = rw (append_none xs) h

  keep_all : (xs : List Text) → keep (λ x. not (contains x [])) xs ≡ xs
  unfolding contains
  keep_all [] = refl
  keep_all (x ∷ xs) = ap (λ r. x ∷ r) (keep_all xs)

  pub ranking-total :
      (vector_hits graph_hits : Option (List (RetrievalHit Score Json))) (a b top_k : ℕ)
      (fused : List (RetrievalHit Score Json))
      → (hits : List (RetrievalHit Score Json)) × (ranking floats same_value vector_hits graph_hits
            a b top_k
            (map
              (entry (given vector_hits) (given graph_hits))
              (all_ids (given vector_hits) (given graph_hits)))
            fused
          ≡ ok hits)
  unfolding ranking
  ranking-total (some vs) none a b top_k fused =
      let (cs, e) =
        in_order-total vs [] (all_ids vs []) (ids vs)
          (keep_others (ids vs) (ids vs) (members_contained (ids vs))) in
      let known =
        All-take (Known vs []) top_k (ids vs)
          (All-map _ (Known vs []) (ids vs) (λ x h. inl h) (members_contained (ids vs))) in
      let (hits, f) = vector_sole-total vs a b 1 (take top_k (ids vs)) known in
      let same =
        ap (take top_k) (in_order-entries floats same_value vs [] (all_ids vs []) (ids vs) cs e)
        ∙ take-map (candidate vs []) top_k (ids vs) in
      returns_then _ _ cs e
        (hits, subst (λ cs. rank_sole floats same_value vector a b 1 cs ≡ ok hits) (sym same) f)
  ranking-total none (some gs) a b top_k fused =
      let whole =
        subst (λ names. All (λ x. contains x names ≡ true) (ids gs)) (sym (keep_all (ids gs)))
          (members_contained (ids gs)) in
      let (cs, e) = in_order-total [] gs (all_ids [] gs) (ids gs) whole in
      let known =
        All-take (Known [] gs) top_k (ids gs)
          (All-map _ (Known [] gs) (ids gs) (λ x h. inr h) (members_contained (ids gs))) in
      let (hits, f) = graph_sole-total gs a b 1 (take top_k (ids gs)) known in
      let same =
        ap (take top_k) (in_order-entries floats same_value [] gs (all_ids [] gs) (ids gs) cs e)
        ∙ take-map (candidate [] gs) top_k (ids gs) in
      returns_then _ _ cs e
        (hits, subst (λ cs. rank_sole floats same_value graph a b 1 cs ≡ ok hits) (sym same) f)
  ranking-total none none a b top_k fused = (_, refl)
  ranking-total (some vs) (some gs) a b top_k fused = (_, refl)
