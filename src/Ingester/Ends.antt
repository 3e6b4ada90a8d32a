-- ===== src/Ingester/Ends.antt =====
-- What Kafka and the database take of the collector's requests when its context ends.
use iicpc_distributed_benchm.Base.{ℕ, ◌≡◌, List, [], ◌∷◌, ◌++◌, false, if◌then◌else◌}
use iicpc_distributed_benchm.Float.{Float64}
use iicpc_distributed_benchm.Telemetry.{Metric}
use iicpc_distributed_benchm.Ingest.{Histogram}
use iicpc_distributed_benchm.Ingester.{
  Effect, Collector, Settings, Event, cancelled, tick, arrival, commit_refused, flush_refused,
  run_collector,
}
use iicpc_distributed_benchm.Ingester.Batches.{inserted, committed}
use iicpc_distributed_benchm.Ingester.Collected.{all_inserted, all_committed}

module _ (f : Float64) (hist : Histogram) where
  -- The records whose insert had a context that was not done.
  abbrev pub inserts_taken : List (Event f hist) → List (List (Effect f hist)) → List Metric
  inserts_taken [] rounds = []
  inserts_taken (e ∷ es) [] = []
  inserts_taken (e ∷ es) (r ∷ rounds) =
      (if flush_refused f hist e then [] else inserted f hist r) ++ inserts_taken es rounds

  -- The messages whose commit had a context that was not done, and those whose commit had one that was.
  abbrev pub commits_taken : List (Event f hist) → List (List (Effect f hist)) → List ℕ
  commits_taken [] rounds = []
  commits_taken (e ∷ es) [] = []
  commits_taken (e ∷ es) (r ∷ rounds) =
      (if commit_refused f hist e then [] else committed f hist r) ++ commits_taken es rounds

  abbrev pub commits_refused : List (Event f hist) → List (List (Effect f hist)) → List ℕ
  commits_refused [] rounds = []
  commits_refused (e ∷ es) [] = []
  commits_refused (e ∷ es) (r ∷ rounds) =
      (if commit_refused f hist e then committed f hist r else []) ++ commits_refused es rounds

  -- The `select` ends the loop in the first round that begins with the context done.
  abbrev pub EndsAtOnce : List (Event f hist) → Type 0
  EndsAtOnce [] = Unit
  EndsAtOnce (cancelled now card ∷ es) = Unit
  EndsAtOnce (tick closing now card ∷ es) = (closing ≡ false) × EndsAtOnce es
  EndsAtOnce (arrival d closing now card ∷ es) = (closing ≡ false) × EndsAtOnce es

  -- What the last round commits.
  abbrev pub last_commits : List (List (Effect f hist)) → List ℕ
  last_commits [] = []
  last_commits (r ∷ []) = committed f hist r
  last_commits (r ∷ q ∷ rounds) = last_commits (q ∷ rounds)

  module _ (cfg : Settings f hist) where
    rounds_of : Collector f hist → List (Event f hist) → List (List (Effect f hist))
    rounds_of c es = (run_collector f hist cfg c es).0

    record Taken (c : Collector f hist) (es : List (Event f hist)) : Type 0 where
      inserts : inserts_taken es (rounds_of c es) ≡ all_inserted f hist (rounds_of c es)
      commits :
          commits_taken es (rounds_of c es) ++ commits_refused es (rounds_of c es)
          ≡ all_committed f hist (rounds_of c es)
