-- ===== src/Ingester.antt =====
-- The collector of cmd/telemetry_ingester/main.go (the last loop of `main`) and `flush`. Its events
-- are what the `select` chooses: the context is done, the ticker fires, a decoded message comes.
-- Effects are the requests that it makes; what Kafka, Redis and TimescaleDB answer only decides what
-- is logged, but for the size of the leaderboard. A message is known by a number.
pub mod Batches
pub mod Rounds
pub mod Collected
pub mod Ends
pub mod Worker
pub mod Delivered
use iicpc_distributed_benchm.Base.{
  true, false, ℕ, ◌+◌, ◌-◌, ◌/◌, ◌==◌, leb, ltb, ◌&&◌, if◌then◌else◌, List, [], ◌∷◌, ◌++◌, Option,
  none, some, Bool, Text, text, length, Result, done, failed,
}
use iicpc_distributed_benchm.Float.{Float64}
use iicpc_distributed_benchm.Telemetry.{Metric}
use iicpc_distributed_benchm.Ingest.{
  Histogram, ContestantWindow, Aggregator, ScoringParams, new_aggregator, add_latency,
  flush_and_reset,
}

-- `decoded`. The message `MetricRecord` has the fields of `Metric`.
pub record Decoded : Type 0 where
  pub rec : Metric
  pub msg : ℕ

-- `pendingCap`
unfoldable pub pending_cap : ℕ
pending_cap = 200_000

-- `latUs` of a record.
unfoldable pub latency_us : Metric → ℕ
latency_us rec =
    let us = (rec.recv_time_ns - rec.sent_time_ns) / 1000 in
    if leb rec.sent_time_ns rec.recv_time_ns then (if us == 0 then 1 else us) else 1

module _ (f : Float64) (hist : Histogram) where
  -- The commands of the pipeline that `flush` executes.
  pub data Command : Type 0 where
    zadd : (key : Text) (score : f.F) (member : Text) → Command
    set_json : (key : Text) (w : ContestantWindow f) → Command
    publish : (channel message : Text) → Command

  -- What the collector asks of Kafka, Redis and TimescaleDB.
  pub data Effect : Type 0 where
    commit_messages : (msgs : List ℕ) → Effect
    exec_pipeline : (commands : List Command) → Effect
    remove_ranks : (key : Text) (first last : ℕ) → Effect
    insert_batch : (recs : List Metric) → Effect

  -- The variables of the collector.
  pub record Collector : Type 0 where
    pub agg : Aggregator f hist
    pub pending : List Metric
    pub to_commit : List ℕ

  -- `*window` and `*topN`; a `topN` that is not positive is 0.
  pub record Settings : Type 0 where
    pub window : ℕ
    pub top_n : ℕ

  abbrev pub window_commands : ContestantWindow f → List Command
  window_commands w =
      zadd (text "leaderboard") w.score w.contestant_id
      ∷ set_json (text "leaderboard:" ++ w.contestant_id) w
      ∷ publish (text "leaderboard_updates") w.contestant_id
      ∷ []

  -- The loop over the windows.
  unfoldable pub commands_of : List (ContestantWindow f) → List Command
  commands_of [] = []
  commands_of (w ∷ ws) = window_commands w ++ commands_of ws

  -- `ZCard` says how many members the leaderboard has; those above `topN` go, the lowest first.
  abbrev pub trim_ranks : ℕ → Result ℕ → List Effect
  trim_ranks top_n (failed e) = []
  trim_ranks top_n (done card) =
      if ltb 0 top_n && ltb top_n card
      then remove_ranks (text "leaderboard") 0 (card - top_n - 1) ∷ []
      else []

  abbrev pub publish_windows : ℕ → Result ℕ → List (ContestantWindow f) → List Effect
  publish_windows top_n card [] = []
  publish_windows top_n card (w ∷ ws) = exec_pipeline (commands_of (w ∷ ws)) ∷ trim_ranks top_n card

  abbrev pub insert_pending : List Metric → List Effect
  insert_pending [] = []
  insert_pending (m ∷ ms) = insert_batch (m ∷ ms) ∷ []

  -- `flush`, at the time `now`: its effects, and the collector after `pending = flush(...)`.
  unfoldable pub flush : Settings → ℕ → Result ℕ → Collector → List Effect × Collector
  flush cfg now card c =
      let (windows, agg) = flush_and_reset f hist c.agg now cfg.window in
      (
        publish_windows cfg.top_n card windows ++ insert_pending c.pending,
        record c { agg = agg; pending = [] },
      )

  abbrev pub commit_pending : List ℕ → List Effect
  commit_pending [] = []
  commit_pending (m ∷ ms) = commit_messages (m ∷ ms) ∷ []

  -- The commit of the consumed offsets, and `flush`. The slice is emptied after an error, too.
  abbrev pub commit_and_flush : Settings → ℕ → Result ℕ → Collector → List Effect × Collector
  commit_and_flush cfg now card c =
      let (effects, c') = flush cfg now card c in
      (commit_pending c.to_commit ++ effects, record c' { to_commit = [] })

  -- `agg.Add` and the two appends.
  unfoldable pub receive : Collector → Decoded → Collector
  receive c d = record {
    agg = add_latency f hist c.agg d.rec.contestant_id (latency_us d.rec) d.rec.is_correct;
    pending = c.pending ++ d.rec ∷ [];
    to_commit = c.to_commit ++ d.msg ∷ [];
  }

  -- What the `select` chooses, with the time and the reply of `ZCard` for the flush that may follow.
  -- With more than one case ready it chooses any of them, so the context may be done, `closing`, in a
  -- round of a tick or a message, too.
  pub data Event : Type 0 where
    cancelled : (now : ℕ) (card : Result ℕ) → Event
    tick : (closing : Bool) (now : ℕ) (card : Result ℕ) → Event
    arrival : (d : Decoded) (closing : Bool) (now : ℕ) (card : Result ℕ) → Event

  -- The context of the commit of a round, and that of its flush, is done: such a request is refused.
  -- The round that ends the loop commits with the context that is done, and flushes with another.
  abbrev pub commit_refused : Event → Bool
  commit_refused (cancelled now card) = true
  commit_refused (tick closing now card) = closing
  commit_refused (arrival d closing now card) = closing

  abbrev pub flush_refused : Event → Bool
  flush_refused (cancelled now card) = false
  flush_refused (tick closing now card) = closing
  flush_refused (arrival d closing now card) = closing

  abbrev pub flush_if : Bool → Settings → ℕ → Result ℕ → Collector → List Effect × Collector
  flush_if full cfg now card c =
      let flushed = commit_and_flush cfg now card c in if full then flushed else ([], c)

  -- One round of the loop. When the context is done, the loop ends after it.
  unfoldable pub handle : Settings → Collector → Event → List Effect × Collector
  unfolding pending_cap
  handle cfg c (cancelled now card) = commit_and_flush cfg now card c
  handle cfg c (tick closing now card) = commit_and_flush cfg now card c
  handle cfg c (arrival d closing now card) =
      let c' = receive c d in flush_if (leb pending_cap (length c'.pending)) cfg now card c'

  -- The effects of each round, and the collector after the last; the loop ends when the context is
  -- done.
  unfoldable pub run_collector : Settings → Collector → List Event → List (List Effect) × Collector
  unfolding handle
  run_collector cfg c [] = ([], c)
  run_collector cfg c (cancelled now card ∷ es) =
      let (effects, c') = handle cfg c (cancelled now card) in (effects ∷ [], c')
  run_collector cfg c (tick closing now card ∷ es) =
      let (effects, c') = handle cfg c (tick closing now card) in
      let (rest, last) = run_collector cfg c' es in (effects ∷ rest, last)
  run_collector cfg c (arrival d closing now card ∷ es) =
      let (effects, c') = handle cfg c (arrival d closing now card) in
      let (rest, last) = run_collector cfg c' es in (effects ∷ rest, last)

  -- `main` before the loop.
  unfoldable pub start_collector : Settings → ℕ → ScoringParams f → Collector
  start_collector cfg now p = record {
    agg = new_aggregator f hist now cfg.window p;
    pending = [];
    to_commit = [];
  }
