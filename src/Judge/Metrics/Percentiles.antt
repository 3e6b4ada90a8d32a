-- ===== src/Judge/Metrics/Percentiles.antt =====
-- The percentiles are order statistics of the latencies.
use iicpc_distributed_benchm.Base.{
  ◌-◌, ◌*◌, ◌/◌, ℕ, zero, suc, ◌≤◌, ◌<◌, ◌≡◌, refl, List, [], ◌∷◌, some, length, get_elem?, get_or,
  arith, sort_slice, length-sort_slice, sort_slice-HasRank, sort_slice_mono, HasRank,
}
use iicpc_distributed_benchm.Judge.Metrics.{rank, percentiles}

get_elem?-eq-get_or :
    (xs : List ℕ) (i d : ℕ) → i < length xs → get_elem? xs i ≡ some (get_or xs i d)
get_elem?-eq-get_or [] i d h = absurd (omega arith)
get_elem?-eq-get_or (x ∷ xs) zero d h = refl
get_elem?-eq-get_or (x ∷ xs) (suc i) d h = get_elem?-eq-get_or xs i d (omega arith)

index_in_range : (n pct : ℕ) → 0 < n → pct ≤ 100 → rank n pct < n
index_in_range n pct h small = grind arith

module _ (values : List ℕ) (some_values : 0 < length values) where
  at :
      (pct : ℕ)
      → pct ≤ 100
      → get_elem? (sort_slice values) (rank (length values) pct)
        ≡ some (get_or (sort_slice values) (rank (length values) pct) 0)
  at pct small = get_elem?-eq-get_or (sort_slice values) (rank (length values) pct) 0 (
      omega (arith, length-sort_slice values, index_in_range (length values) pct some_values small))

  percentiles_some : percentiles values ≡ (
    get_or (sort_slice values) (rank (length values) 50) 0,
    get_or (sort_slice values) (rank (length values) 90) 0,
    get_or (sort_slice values) (rank (length values) 99) 0,
  )
  unfolding percentiles
  percentiles_some = ground arith

  -- Of a list that is not empty, each percentile p is the number of rank (n-1)*p/100, counted from 0
  -- in ascending order: at most that many latencies are below it, and more than that many are not
  -- above it. And p50 ≤ p90 ≤ p99.
  pub percentiles_ranks :
      let (p50, p90, p99) = percentiles values in
      HasRank values ((length values - 1) * 50 / 100) p50
      × HasRank values ((length values - 1) * 90 / 100) p90
      × HasRank values ((length values - 1) * 99 / 100) p99
      × (p50 ≤ p90)
      × (p90 ≤ p99)
  percentiles_ranks = rw percentiles_some (
    sort_slice-HasRank values _ (at 50 (omega arith)),
    sort_slice-HasRank values _ (at 90 (omega arith)),
    sort_slice-HasRank values _ (at 99 (omega arith)),
    sort_slice_mono values _ _ (omega arith) (at 50 (omega arith)) (at 90 (omega arith)),
    sort_slice_mono values _ _ (omega arith) (at 90 (omega arith)) (at 99 (omega arith)),
  )
