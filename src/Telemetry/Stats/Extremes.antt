-- ===== src/Telemetry/Stats/Extremes.antt =====
-- The statistics of a batch of latencies, whatever was there before the reset.
use iicpc_distributed_benchm.Base.{
  ℕ, ◌+◌, ◌≤◌, ◌<◌, ◌≡◌, ◌⊎◌, inl, inr, ap, sym, ◌∙◌, refl, List, [], ◌∷◌, length, get_elem?, some,
  suc, All, arith, u64_mod,
}
use iicpc_distributed_benchm.Float.{Float64}
use iicpc_distributed_benchm.Telemetry.Stats.{Stats, reset, add_latency, add_latencies}

-- `m` is at most each latency; `m` is at least each.
abbrev pub IsLowest : ℕ → List ℕ → Type 0
IsLowest m = All (λ x. m ≤ x)

abbrev pub IsHighest : ℕ → List ℕ → Type 0
IsHighest m = All (λ x. x ≤ m)

-- `x` is one of the latencies.
abbrev pub Occurs : ℕ → List ℕ → Type 0
Occurs x xs = (i : ℕ) × (get_elem? xs i ≡ some x)

module _ (f : Float64) where
  open f use {F, of_uint, add}

  -- The float sum, in the order of the calls.
  abbrev pub float_sum : F → List ℕ → F
  float_sum acc [] = acc
  float_sum acc (x ∷ xs) = float_sum (add acc (of_uint x)) xs

  IsLowest-mono : (a b : ℕ) (xs : List ℕ) → a ≤ b → IsLowest b xs → IsLowest a xs
  IsLowest-mono a b [] h l = tt
  IsLowest-mono a b (x ∷ xs) h l = (omega arith, IsLowest-mono a b xs h l.1)

  -- What adding `xs` to the statistics `s`, which are not empty, leaves.
  record Extends (s : Stats f) (xs : List ℕ) (t : Stats f) : Type 0 where
    count : t.count ≡ s.count + length xs
    min_kept : t.min_latency_ns ≤ s.min_latency_ns
    lowest : IsLowest t.min_latency_ns xs
    min_from : (t.min_latency_ns ≡ s.min_latency_ns) ⊎ Occurs t.min_latency_ns xs
    max_kept : s.max_latency_ns ≤ t.max_latency_ns
    highest : IsHighest t.max_latency_ns xs
    max_from : (t.max_latency_ns ≡ s.max_latency_ns) ⊎ Occurs t.max_latency_ns xs
    sum : t.sum_latency_ns ≡ float_sum s.sum_latency_ns xs

  -- One call of `AddLatency` on statistics that are not empty.
  record Added (s : Stats f) (x : ℕ) (t : Stats f) : Type 0 where
    count : t.count ≡ s.count + 1
    min_kept : (t.min_latency_ns ≤ s.min_latency_ns) × (t.min_latency_ns ≤ x)
    min_from : (t.min_latency_ns ≡ s.min_latency_ns) ⊎ (t.min_latency_ns ≡ x)
    max_kept : (s.max_latency_ns ≤ t.max_latency_ns) × (x ≤ t.max_latency_ns)
    max_from : (t.max_latency_ns ≡ s.max_latency_ns) ⊎ (t.max_latency_ns ≡ x)
    sum : t.sum_latency_ns ≡ add s.sum_latency_ns (of_uint x)

  add_latency-Added :
      (s : Stats f) (x : ℕ) → 0 < s.count → s.count + 1 < u64_mod → Added s x (add_latency f s x)
  unfolding add_latency
  add_latency-Added s x h room = ground arith

  later : {x : ℕ} {m : ℕ} (xs : List ℕ) → Occurs m xs → Occurs m (x ∷ xs)
  later xs (i, e) = (suc i, e)

  comes_from :
      (x : ℕ) (xs : List ℕ) {m n o : ℕ}
      → (n ≡ o) ⊎ (n ≡ x)
      → (m ≡ n) ⊎ Occurs m xs
      → (m ≡ o) ⊎ Occurs m (x ∷ xs)
  comes_from x xs first (inr (i, e)) = inr (suc i, e)
  comes_from x xs (inl p) (inl q) = inl (q ∙ p)
  comes_from x xs (inr p) (inl q) = inr (0, ap some (sym (q ∙ p)))

  add_latencies-Extends :
      (xs : List ℕ) (s : Stats f)
      → 0 < s.count
      → s.count + length xs < u64_mod
      → Extends s xs (add_latencies f s xs)
  add_latencies-Extends [] s h room = record {
    count = omega arith;
    min_kept = omega arith;
    lowest = tt;
    min_from = inl refl;
    max_kept = omega arith;
    highest = tt;
    max_from = inl refl;
    sum = refl;
  }
  add_latencies-Extends (x ∷ xs) s h room =
      let a = add_latency-Added s x h (omega arith) in
      let e =
        add_latencies-Extends xs (add_latency f s x) (omega (arith, a.count))
          (omega (arith, a.count)) in
      record {
        count = omega (arith, a.count, e.count);
        min_kept = omega (arith, a.min_kept, e.min_kept);
        lowest = (omega (arith, a.min_kept, e.min_kept), e.lowest);
        min_from = comes_from x xs a.min_from e.min_from;
        max_kept = omega (arith, a.max_kept, e.max_kept);
        highest = (omega (arith, a.max_kept, e.max_kept), e.highest);
        max_from = comes_from x xs a.max_from e.max_from;
        sum = e.sum ∙ ap (λ t. float_sum t xs) a.sum;
      }

  -- The statistics of a batch.
  pub record Summary (xs : List ℕ) (t : Stats f) : Type 0 where
    pub count : t.count ≡ length xs
    pub lowest : IsLowest t.min_latency_ns xs
    pub min_occurs : Occurs t.min_latency_ns xs
    pub highest : IsHighest t.max_latency_ns xs
    pub max_occurs : Occurs t.max_latency_ns xs

  found : {m x : ℕ} (xs : List ℕ) → (m ≡ x) ⊎ Occurs m xs → Occurs m (x ∷ xs)
  found xs (inl e) = (0, ap some (sym e))
  found xs (inr (i, e)) = (suc i, e)

  -- After `Reset`, whatever stood there, and `AddLatency` of each of a non-empty batch of fewer than
  -- 2^64 latencies: the count is theirs, the minimum and the maximum are among them and bound them
  -- all, and the sum is the float sum in the order of the calls.
  pub reset-add_latencies :
      (s : Stats f) (x : ℕ) (xs : List ℕ)
      → suc (length xs) < u64_mod
      → let t = add_latencies f (reset f s) (x ∷ xs) in
        Summary (x ∷ xs) t × (t.sum_latency_ns ≡ float_sum (of_uint x) xs)
  unfolding reset add_latency
  reset-add_latencies s x xs room =
      let e = add_latencies-Extends xs (add_latency f (reset f s) x) (omega arith) (omega arith) in
      (
        record {
          count = omega (arith, e.count);
          lowest = (e.min_kept, e.lowest);
          min_occurs = found xs e.min_from;
          highest = (e.max_kept, e.highest);
          max_occurs = found xs e.max_from;
        },
        e.sum,
      )
