-- ===== src/Samples/Metrics.antt =====
-- A ranking with a repeated chunk, and the theorems on the measures at it.
use oss.Prelude.{ℕ, suc, ◌≤◌, List, [], ◌∷◌, ◌++◌, length, take, count_of, All, ◌≡◌, refl, arith}
use oss.Prelude.Text.{Text, codes, contains, same_text}
use oss.Benchmark.Metrics.{grade_of, is_relevant, recall_at_k, mrr_at_k, unique_prefix}
use oss.Benchmark.Metrics.Prefix.{fresh, unique_prefix-take}
use oss.Benchmark.Metrics.Ranks.{mrr_finds_first}
use oss.Benchmark.Metrics.Recall.{is_graded, recall_at_k_counts}

abbrev ranking : List Text
ranking = codes "a" ∷ codes "a" ∷ codes "b" ∷ codes "c" ∷ []

abbrev judgements : List (Text × ℕ)
judgements = (codes "b", 2) ∷ (codes "c", 1) ∷ (codes "a", 0) ∷ []

unique_prefix-take_example : unique_prefix 2 ranking ≡ take 2 (fresh [] ranking)
unique_prefix-take_example = unique_prefix-take 2 ranking (omega arith)

recall_at_k_counts_example :
    (1 ≡ count_of (is_graded judgements) (take 2 (fresh [] ranking)))
    × (1 ≤ 2)
    × (1 ≤ 2)
    × (2 ≡ count_of is_relevant judgements)
    × (1 ≤ 2)
unfolding recall_at_k same_text contains
recall_at_k_counts_example =
    recall_at_k_counts ranking judgements 2 1 2 (refl, (refl, (refl, tt))) refl

mrr_finds_first_example :
    (before : List Text) × (x : Text) × (later : List Text) × (unique_prefix 2 ranking
      ≡ before ++ x ∷ later)
    × (2 ≡ suc (length before))
    × All (λ y. grade_of judgements y ≡ 0) before
    × (1 ≤ grade_of judgements x)
    × (2 ≤ 2)
unfolding mrr_at_k
mrr_finds_first_example = mrr_finds_first ranking judgements 2 2 refl
