-- ===== src/Judge/Metrics/Report.antt =====
-- What `drainRingBuffer` reports of the elements that were stored.
use mathlib.Core.List.{foldl}
use iicpc_distributed_benchm.Base.{
  ℕ, ◌+◌, ◌≤◌, ◌<◌, ◌≡◌, refl, ap, ◌∙◌, List, [], ◌∷◌, ◌++◌, Option, none, some, Bool, true, false,
  length, replicate, length-replicate, arith, count, u64_mod, append_assoc, append-nil,
}
use iicpc_distributed_benchm.Float.{Float64}
use iicpc_distributed_benchm.Telemetry.{Metric}
use iicpc_distributed_benchm.Telemetry.RingBuffer.{RingBuffer}
use iicpc_distributed_benchm.Telemetry.RingBuffer.Inv.{IsValid}
use iicpc_distributed_benchm.Telemetry.RingBuffer.Window.{contents}
use iicpc_distributed_benchm.Telemetry.RingBuffer.Refine.{length-contents}
use iicpc_distributed_benchm.Telemetry.Drain.{drain_loop, Drained, drain_loop_lem}
use iicpc_distributed_benchm.Judge.Metrics.{
  Tally, tally_metric, latency_us, append_latency, blank_metric, batch_size, LocalStats, no_stats,
  local_stats, percentiles, drain_ring_buffer,
}

-- The latencies of the metrics whose clock did not go back.
abbrev pub latencies_of : List Metric → List ℕ
latencies_of [] = []
latencies_of (m ∷ ms) = append_latency [] (latency_us m) ++ latencies_of ms

abbrev pub correct_of : List Metric → ℕ
correct_of = count (λ m. m.is_correct)

append_latency_lem :
    (ls : List ℕ) (o : Option ℕ) (rest : List ℕ)
    → append_latency ls o ++ rest ≡ ls ++ (append_latency [] o ++ rest)
append_latency_lem ls none rest = refl
append_latency_lem ls (some us) rest = append_assoc ls (us ∷ []) rest

Tally-eq :
    {ls ls' : List ℕ} {c c' n n' : ℕ}
    → ls ≡ ls'
    → c ≡ c'
    → n ≡ n'
    → ◌≡◌ {A = Tally}
        (record { latencies = ls; correct = c; total = n })
        (record { latencies = ls'; correct = c'; total = n' })
Tally-eq p q r = λ i. record { latencies = p i; correct = q i; total = r i }

abbrev one_if : Bool → ℕ
one_if true = 1
one_if false = 0

-- One round of the inner loop; no counter wraps.
tally_metric_lem :
    (t : Tally) (m : Metric)
    → t.total + 1 < u64_mod
    → t.correct ≤ t.total
    → ((tally_metric t m).latencies ≡ append_latency t.latencies (latency_us m))
      × ((tally_metric t m).correct ≡ t.correct + one_if m.is_correct)
      × ((tally_metric t m).total ≡ t.total + 1)
      × ((tally_metric t m).correct ≤ (tally_metric t m).total)
unfolding tally_metric
tally_metric_lem t m room le = (refl, ground arith, ground arith, ground arith)

correct_cons :
    (m : Metric) (ms : List Metric) → correct_of (m ∷ ms) ≡ one_if m.is_correct + correct_of ms
correct_cons m ms = ground arith

batch_size_positive : 0 < batch_size
unfolding batch_size
batch_size_positive = omega arith

foldl-tally_metric :
    (ms : List Metric) (t : Tally)
    → t.total + length ms < u64_mod
    → t.correct ≤ t.total
    → foldl tally_metric t ms ≡ record {
      latencies = t.latencies ++ latencies_of ms;
      correct = t.correct + correct_of ms;
      total = t.total + length ms;
    }
foldl-tally_metric [] t room le = ground (arith, append-nil t.latencies)
foldl-tally_metric (m ∷ ms) t room le =
    let e = tally_metric_lem t m (omega arith) le in
    foldl-tally_metric ms (tally_metric t m) (omega (arith, e)) (omega (arith, e))
    ∙ Tally-eq
        (ap (λ ls. ls ++ latencies_of ms) e.0
          ∙ append_latency_lem t.latencies (latency_us m) (latencies_of ms))
        (omega (arith, e, correct_cons m ms)) (omega (arith, e))

module _ (f : Float64) where
  open f use {of_uint, sub, mul, div, lit}

  -- The report on a list of metrics, written without a loop.
  abbrev pub report : List Metric → LocalStats f
  report [] = no_stats f
  report (m ∷ ms) =
      let all = m ∷ ms in
      let ratio = div (of_uint (correct_of all)) (of_uint (length all)) in
      let (p50, p90, p99) = percentiles (latencies_of all) in
      record {
        count = length all;
        correct_ratio = ratio;
        p50_us = p50;
        p90_us = p90;
        p99_us = p99;
        score = sub (mul ratio (lit 1_000_000 1)) (of_uint p99);
      }

  local_stats-eq-report :
      (ms : List Metric)
      → local_stats f
          (record { latencies = latencies_of ms; correct = correct_of ms; total = length ms })
        ≡ report ms
  unfolding local_stats
  local_stats-eq-report [] = refl
  local_stats-eq-report (m ∷ ms) = ground arith

  -- `drainRingBuffer` returns, whatever a valid buffer holds: it reports exactly the stored elements
  -- (how many, the share that is correct, the percentiles of their latencies and the score of
  -- these), and leaves a valid and empty buffer.
  pub drain_ring_buffer-report :
      (rb : RingBuffer Metric)
      → IsValid rb
      → (last : RingBuffer Metric) × (drain_ring_buffer f rb ≡ some (report (contents rb), last))
        × (contents last ≡ [])
        × IsValid last
  unfolding drain_ring_buffer
  drain_ring_buffer-report rb v = (
    drained.last,
    rw (drained.result, drain_ring_buffer)
        (ap (λ s. some (s, drained.last))
          (ap (local_stats f) tallied ∙ local_stats-eq-report (contents rb))),
    drained.emptied,
    drained.valid,
  )
    where
      t : Tally
      t = record { latencies = []; correct = 0; total = 0 }

      drained :
          Drained tally_metric rb t
            (drain_loop tally_metric (rb.size + 1 + 1) rb (replicate batch_size blank_metric) t)
      drained =
          drain_loop_lem tally_metric (rb.size + 1 + 1) rb (replicate batch_size blank_metric) t v
            (omega (arith, length-replicate batch_size blank_metric, batch_size_positive))
            (omega (arith, length-contents v))

      tallied : foldl tally_metric t (contents rb) ≡ record {
        latencies = latencies_of (contents rb);
        correct = correct_of (contents rb);
        total = length (contents rb);
      }
      tallied =
          foldl-tally_metric (contents rb) t (omega (arith, length-contents v)) (omega arith)
          ∙ Tally-eq refl (omega arith) (omega arith)
