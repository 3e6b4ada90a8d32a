-- ===== src/Ingest.antt =====
-- internal/ingest/aggregator.go: one window of measurements per contestant, and its scores. Each
-- method holds the mutex, so calls follow one another. The histogram is that of package
-- hdrhistogram-go, a parameter; times are nanoseconds.
pub mod Cell
pub mod Totals
pub mod Flush
use iicpc_distributed_benchm.Base.{
  ℕ, ◌+◌, ◌-◌, ◌/◌, ◌%◌, ◌==◌, ltb, ◌||◌, if◌then◌else◌, Bool, true, false, List, [], ◌∷◌, ◌++◌,
  Option, none, some, Text, text, Assoc, lookup, lookup_or, insert, add64,
}
use iicpc_distributed_benchm.Config.{is_empty}
use iicpc_distributed_benchm.Float.{Float64}

-- What the aggregator uses of `hdrhistogram.Histogram`.
pub record Histogram : Type 1 where
  pub H : Type 0
  pub new : ℕ → ℕ → ℕ → H
  pub record_value : H → ℕ → H
  pub value_at_quantile : H → ℕ → ℕ

-- `ScoringParams`
pub record ScoringParams (f : Float64) : Type 0 where
  pub lambda : f.F
  pub l_target : f.F
  pub t_target : f.F

-- `ContestantWindow`
pub record ContestantWindow (f : Float64) : Type 0 where
  pub contestant_id : Text
  pub window_start : ℕ
  pub window_end : ℕ
  pub count : ℕ
  pub correct_count : ℕ
  pub correct_ratio : f.F
  pub p50_us : ℕ
  pub p90_us : ℕ
  pub p99_us : ℕ
  pub min_us : ℕ
  pub max_us : ℕ
  pub avg_us : ℕ
  pub sustained_tps : f.F
  pub score : f.F
  pub score_latency : f.F
  pub score_throughput : f.F
  pub score_correctness : f.F

-- `Aggregator` without its mutex.
pub record Aggregator (f : Float64) (hist : Histogram) : Type 0 where
  pub start : ℕ
  pub end_time : ℕ
  pub params : ScoringParams f
  pub hists : Assoc hist.H
  pub sum_us : Assoc ℕ
  pub cnt : Assoc ℕ
  pub ok : Assoc ℕ
  pub min_us : Assoc ℕ
  pub max_us : Assoc ℕ

module _ (f : Float64) where
  open f use {F, of_uint, to_uint, lit, add, sub, mul, div, neg, fmin, fmax, exp, pow, round}

  abbrev pub default_scoring_params : ScoringParams f
  default_scoring_params = record {
    lambda = lit 1 1000;
    l_target = lit 10000 10;
    t_target = lit 100000 10;
  }

  abbrev pub composite : F → F → F → F
  composite p50 p90 p99 = add (add (mul (lit 2 10) p50) (mul (lit 3 10) p90)) (mul (lit 5 10) p99)

  abbrev pub latency_score : ScoringParams f → F → F
  latency_score p l =
      mul (lit 1000 10) (exp (mul (neg p.lambda) (fmax (of_uint 0) (sub l p.l_target))))

  abbrev pub throughput_score : ScoringParams f → F → F
  throughput_score p tps = mul (lit 1000 10) (fmin (lit 10 10) (div tps p.t_target))

  abbrev pub correctness_score : F → F
  correctness_score ratio = mul (lit 1000 10) (pow ratio (of_uint 4))

  abbrev pub weighted : F → F → F → F
  weighted s_l s_t s_c =
      add (add (mul (lit 40 100) s_l) (mul (lit 30 100) s_t)) (mul (lit 30 100) s_c)

  -- `ComputeScore`
  unfoldable pub compute_score : F → F → F → F → F → ScoringParams f → F
  compute_score p50 p90 p99 correct_ratio sustained_tps p =
      weighted (latency_score p (composite p50 p90 p99)) (throughput_score p sustained_tps)
        (correctness_score correct_ratio)

  -- `d.Seconds()` of a duration in nanoseconds.
  abbrev pub seconds : ℕ → F
  seconds d =
      add (of_uint (d / 1_000_000_000)) (div (of_uint (d % 1_000_000_000)) (lit 1_000_000_000 1))

  -- `windowSecs`. A window that ends before it starts counts 0 here; the code turns both 0 and a
  -- negative number of seconds into 1.
  abbrev pub window_secs : ℕ → ℕ → F
  window_secs start end_time =
      let secs = seconds (end_time - start) in if f.leb secs (of_uint 0) then of_uint 1 else secs

  module _ (hist : Histogram) where
    open hist use {H, new, record_value, value_at_quantile}

    -- `NewAggregatorWithParams`
    pub new_aggregator : ℕ → ℕ → ScoringParams f → Aggregator f hist
    new_aggregator now window p = record {
      start = now;
      end_time = now + window;
      params = p;
      hists = [];
      sum_us = [];
      cnt = [];
      ok = [];
      min_us = [];
      max_us = [];
    }

    abbrev pub ensure_found : Aggregator f hist → Text → Option H → H × Aggregator f hist
    ensure_found a cid (some h) = (h, a)
    ensure_found a cid none =
        let h = new 1 60_000_000 3 in
        (
          h,
          record a {
            hists = insert cid h a.hists;
            min_us = insert cid 0 a.min_us;
            max_us = insert cid 0 a.max_us;
          },
        )

    -- `ensure`
    pub ensure : Aggregator f hist → Text → H × Aggregator f hist
    ensure a cid = ensure_found a cid (lookup cid a.hists)

    abbrev pub contestant : Text → Text
    contestant cid = if is_empty cid then text "unknown" else cid

    abbrev pub at_least_one : ℕ → ℕ
    at_least_one n = if n == 0 then 1 else n

    abbrev pub lower : ℕ → ℕ → ℕ
    lower old us = if old == 0 || ltb us old then us else old

    abbrev pub higher : ℕ → ℕ → ℕ
    higher old us = if ltb old us then us else old

    -- `Add` behind its two defaults. `RecordValue` changes the histogram in place, here its entry.
    pub add_measurement : Aggregator f hist → Text → ℕ → Bool → Aggregator f hist
    unfolding ensure
    add_measurement a₀ cid us correct =
        let (h, a) = ensure a₀ cid in
        record a {
          hists = insert cid (record_value h us) a.hists;
          cnt = insert cid (add64 (lookup_or 0 cid a.cnt) 1) a.cnt;
          sum_us = insert cid (add64 (lookup_or 0 cid a.sum_us) us) a.sum_us;
          ok = if correct then insert cid (add64 (lookup_or 0 cid a.ok) 1) a.ok else a.ok;
          min_us = insert cid (lower (lookup_or 0 cid a.min_us) us) a.min_us;
          max_us = insert cid (higher (lookup_or 0 cid a.max_us) us) a.max_us;
        }

    -- `Add`
    pub add_latency : Aggregator f hist → Text → ℕ → Bool → Aggregator f hist
    unfolding add_measurement
    add_latency a cid latency_us correct =
        add_measurement a (contestant cid) (at_least_one latency_us) correct

    -- A quantile as a float. A contestant with a count has a histogram; the
    -- code would panic without one.
    abbrev pub quantile : Option H → ℕ → F
    quantile none q = of_uint 0
    quantile (some h) q = of_uint (value_at_quantile h q)

    -- The body of the loop of `FlushAndReset`, for a count that is not 0.
    pub window_of : Aggregator f hist → Text → ℕ → ContestantWindow f
    window_of a cid c =
        let h = lookup cid a.hists in
        let ok = lookup_or 0 cid a.ok in
        let sum = lookup_or 0 cid a.sum_us in
        let ratio = div (of_uint ok) (of_uint c) in
        let p50 = quantile h 50 in
        let p90 = quantile h 90 in
        let p99 = quantile h 99 in
        let tps = div (of_uint c) (window_secs a.start a.end_time) in
        let s_l = latency_score a.params (composite p50 p90 p99) in
        let s_t = throughput_score a.params tps in
        let s_c = correctness_score ratio in
        record {
          contestant_id = cid;
          window_start = a.start / 1_000_000_000;
          window_end = a.end_time / 1_000_000_000;
          count = c;
          correct_count = ok;
          correct_ratio = ratio;
          p50_us = to_uint p50;
          p90_us = to_uint p90;
          p99_us = to_uint p99;
          min_us = lookup_or 0 cid a.min_us;
          max_us = lookup_or 0 cid a.max_us;
          avg_us = to_uint (round (div (of_uint sum) (of_uint c)));
          sustained_tps = tps;
          score = weighted s_l s_t s_c;
          score_latency = s_l;
          score_throughput = s_t;
          score_correctness = s_c;
        }

    -- The loop of `FlushAndReset` over `a.cnt`, in the order of the entries; Go's order is not
    -- specified.
    pub windows_of : Aggregator f hist → Assoc ℕ → List (ContestantWindow f)
    windows_of a [] = []
    windows_of a ((cid, c) ∷ rest) =
        let ws = windows_of a rest in if c == 0 then ws else window_of a cid c ∷ ws

    -- `FlushAndReset`
    pub flush_and_reset : Aggregator f hist → ℕ → ℕ → List (ContestantWindow f) × Aggregator f hist
    unfolding windows_of
    flush_and_reset a now next_window = (
      windows_of a a.cnt,
      record a {
        start = now;
        end_time = now + next_window;
        hists = [];
        sum_us = [];
        cnt = [];
        ok = [];
        min_us = [];
        max_us = [];
      },
    )
