-- ===== src/Judge/Engine/Scored.antt =====
-- The score of a run, from the metrics that its bots recorded.
use iicpc_distributed_benchm.Base.{
  ◌<◌, ◌≤◌, ◌≡◌, ◌⊎◌, inl, inr, sym, subst, refl, ap, ap₂, ◌∙◌, List, [], ◌++◌, Option, none, some,
  Text, length, take, u64_mod, arith,
}
use iicpc_distributed_benchm.Float.{Float64}
use iicpc_distributed_benchm.Telemetry.{Metric}
use iicpc_distributed_benchm.Telemetry.RingBuffer.{RingBuffer, new_ring_buffer}
use iicpc_distributed_benchm.Telemetry.RingBuffer.Inv.{IsValid, new_ring_buffer-IsValid}
use iicpc_distributed_benchm.Telemetry.RingBuffer.Window.{contents}
use iicpc_distributed_benchm.Telemetry.RingBuffer.Filled.{
  push_all, push_all-IsValid, contents-push_all,
}
use iicpc_distributed_benchm.Sandbox.Size.{Size}
use iicpc_distributed_benchm.Judge.Metrics.{drain_ring_buffer, blank_metric}
use iicpc_distributed_benchm.Judge.Metrics.Report.{report, drain_ring_buffer-report}
use iicpc_distributed_benchm.Judge.Engine.{
  Submission, Config, Outside, RunResult, completed, run_failed, Finished, drained,
  completed_result, run,
}
use iicpc_distributed_benchm.Judge.Engine.Outcome.{Verdict}
use iicpc_distributed_benchm.Judge.Ready.Bounded.{Spaced}
use iicpc_distributed_benchm.Judge.Engine.Returns.{run_concludes}

-- `telemetry.NewRingBuffer(500_000)`, after the bots have pushed the metrics `ms`, one at a time.
abbrev pub recorded : List Metric → RingBuffer Metric
recorded ms = push_all (new_ring_buffer blank_metric 500_000) ms

recorded-IsValid : (ms : List Metric) → length ms < u64_mod → IsValid (recorded ms)
recorded-IsValid ms room =
    let (v, start) = new_ring_buffer-IsValid blank_metric 500_000 in
    push_all-IsValid ms (new_ring_buffer blank_metric 500_000) v (omega (arith, start, room))

size_of_new : (new_ring_buffer blank_metric 500_000).size ≡ 500_000
unfolding new_ring_buffer
size_of_new = refl

empty_new : contents (new_ring_buffer blank_metric 500_000) ≡ []
unfolding new_ring_buffer
empty_new = refl

contents-recorded :
    (ms : List Metric) → length ms < u64_mod → contents (recorded ms) ≡ take 500_000 ms
contents-recorded ms room =
    let (v, start) = new_ring_buffer-IsValid blank_metric 500_000 in
    contents-push_all ms (new_ring_buffer blank_metric 500_000) v (omega (arith, start, room))
    ∙ ap₂ (λ n q. take n (q ++ ms)) size_of_new empty_new

module _ (f : Float64) (cfg : Config) (sub : Submission) (o : Outside f) where
  drained-recorded :
      (ms : List Metric)
      → length ms < u64_mod
      → drained f cfg sub o (drain_ring_buffer f (recorded ms)) ≡ report f (take 500_000 ms)
  drained-recorded ms room =
      let (last, e, empty, valid) =
        drain_ring_buffer-report f (recorded ms) (recorded-IsValid ms room) in
      ap (drained f cfg sub o) e ∙ ap (report f) (contents-recorded ms room)

  -- A completed result with the report on the metrics `ms`.
  pub record Reports (ms : List Metric) (r : RunResult f) : Type 0 where
    pub status : r.status ≡ completed
    pub total_orders : r.total_orders ≡ (report f ms).count
    pub correct_ratio : r.correct_ratio ≡ (report f ms).correct_ratio
    pub p50_us : r.p50_us ≡ (report f ms).p50_us
    pub p90_us : r.p90_us ≡ (report f ms).p90_us
    pub p99_us : r.p99_us ≡ (report f ms).p99_us
    pub score : r.score ≡ (report f ms).score
    pub finished_at : r.finished_at ≡ o.finished_at
    pub error : r.error ≡ []

  -- A run has ended without an error, and its result reports the metrics `ms`; or it has failed.
  abbrev pub Scored : List Metric → Finished f → Type 0
  Scored ms fin =
      ((fin.error ≡ none) × Reports ms fin.result)
      ⊎ ((e : Text) × (fin.error ≡ some e)
          × (fin.result.status ≡ run_failed)
          × (fin.result.error ≡ e))

  completed_result-Reports :
      (ms : List Metric) → Reports ms (completed_result f cfg sub o (report f ms))
  completed_result-Reports ms = record {
    status = refl;
    total_orders = refl;
    correct_ratio = refl;
    p50_us = refl;
    p90_us = refl;
    p99_us = refl;
    score = refl;
    finished_at = refl;
    error = refl;
  }

  Verdict-Scored :
      (ms : List Metric) (fin : Finished f) (error : Option Text) (messages : List Text)
      → length ms < u64_mod
      → o.ring_buffer ≡ recorded ms
      → fin.error ≡ error
      → Verdict f cfg sub o error fin.result messages
      → Scored (take 500_000 ms) fin
  Verdict-Scored ms fin none messages room full e v =
      let reported =
        v.0
        ∙ (ap (λ rb. completed_result f cfg sub o (drained f cfg sub o (drain_ring_buffer f rb)))
              full
            ∙ ap (completed_result f cfg sub o) (drained-recorded ms room)) in
      inl (
        e,
        subst (Reports (take 500_000 ms)) (sym reported)
            (completed_result-Reports (take 500_000 ms)),
      )
  Verdict-Scored ms fin (some err) messages room full e v = inr (err, e, v.0, v.1)

  -- If the dials of `waitForGRPC` end at least 300 ms apart and 35 of them are made, and the bots
  -- have recorded fewer than 2^64 metrics, one at a time, then `Run` returns: without an error, and
  -- its completed result has the number, the share of correct ones, the percentiles and the score of
  -- exactly the first 500 000 of these metrics; or with an error, which its failed result holds.
  pub run-report :
      (show : Size → Text) (ms : List Metric)
      → Spaced o.dial_start o.attempts
      → 35 ≤ length o.attempts
      → length ms < u64_mod
      → o.ring_buffer ≡ recorded ms
      → (fin : Finished f) × (run f cfg sub o show ≡ some fin) × Scored (take 500_000 ms) fin
  run-report show ms spaced enough room full =
      let (fin, e, c) = run_concludes f cfg sub o show spaced enough in
      (fin, e, Verdict-Scored ms fin fin.error _ room full refl c.verdict)
