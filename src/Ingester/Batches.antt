-- ===== src/Ingester/Batches.antt =====
-- The batches of the collector: what it takes in, what it commits, what it inserts into TimescaleDB
-- and what its windows say.
use iicpc_distributed_benchm.Base.{
  ℕ, ◌-◌, ◌≡◌, refl, ap, ap₂, ◌∙◌, ltb, ◌&&◌, if◌then◌else◌, List, [], ◌∷◌, ◌++◌, append-nil, true,
  false, text, Result, done, failed,
}
use iicpc_distributed_benchm.Float.{Float64}
use iicpc_distributed_benchm.Telemetry.{Metric}
use iicpc_distributed_benchm.Ingest.{Histogram, ContestantWindow}
use iicpc_distributed_benchm.Ingest.Cell.{Measurement}
use iicpc_distributed_benchm.Ingester.{
  Decoded, latency_us, Command, zadd, set_json, publish, Effect, commit_messages, exec_pipeline,
  remove_ranks, insert_batch, commands_of, trim_ranks, publish_windows, insert_pending,
  commit_pending, Event, cancelled, tick, arrival,
}

-- What the aggregator is given of a record.
abbrev pub measurement : Metric → Measurement
measurement m = record {
  contestant_id = m.contestant_id;
  latency_us = latency_us m;
  correct = m.is_correct;
}

module _ (f : Float64) (hist : Histogram) where
  abbrev pub windows_in : List (Command f hist) → List (ContestantWindow f)
  windows_in [] = []
  windows_in (zadd key score member ∷ cs) = windows_in cs
  windows_in (set_json key w ∷ cs) = w ∷ windows_in cs
  windows_in (publish channel message ∷ cs) = windows_in cs

  -- The windows stored, the records inserted and the messages committed by some effects.
  abbrev pub published : List (Effect f hist) → List (ContestantWindow f)
  published [] = []
  published (commit_messages msgs ∷ es) = published es
  published (exec_pipeline cs ∷ es) = windows_in cs ++ published es
  published (remove_ranks key a b ∷ es) = published es
  published (insert_batch recs ∷ es) = published es

  abbrev pub inserted : List (Effect f hist) → List Metric
  inserted [] = []
  inserted (commit_messages msgs ∷ es) = inserted es
  inserted (exec_pipeline cs ∷ es) = inserted es
  inserted (remove_ranks key a b ∷ es) = inserted es
  inserted (insert_batch recs ∷ es) = recs ++ inserted es

  abbrev pub committed : List (Effect f hist) → List ℕ
  committed [] = []
  committed (commit_messages msgs ∷ es) = msgs ++ committed es
  committed (exec_pipeline cs ∷ es) = committed es
  committed (remove_ranks key a b ∷ es) = committed es
  committed (insert_batch recs ∷ es) = committed es

  -- The messages that come in before the context is done.
  abbrev pub received : List (Event f hist) → List Decoded
  received [] = []
  received (cancelled now card ∷ es) = []
  received (tick closing now card ∷ es) = received es
  received (arrival d closing now card ∷ es) = d ∷ received es

  windows_in-commands_of :
      (ws : List (ContestantWindow f)) → windows_in (commands_of f hist ws) ≡ ws
  unfolding commands_of
  windows_in-commands_of [] = refl
  windows_in-commands_of (w ∷ ws) = ap (◌∷◌ w) (windows_in-commands_of ws)

  -- What one round's effects come to.
  pub record Sums (es : List (Effect f hist)) (ws : List (ContestantWindow f)) (recs : List Metric)
      (msgs : List ℕ) : Type 0 where
    pub windows : published es ≡ ws
    pub records : inserted es ≡ recs
    pub messages : committed es ≡ msgs

  insert-Sums : (recs : List Metric) → Sums (insert_pending f hist recs) [] recs []
  insert-Sums [] = record { windows = refl; records = refl; messages = refl }
  insert-Sums (m ∷ ms) = record { windows = refl; records = append-nil _; messages = refl }

  trim-Sums :
      (top_n : ℕ) (card : Result ℕ) {es : List (Effect f hist)} {ws : List (ContestantWindow f)}
      {recs : List Metric} {msgs : List ℕ}
      → Sums es ws recs msgs
      → Sums (trim_ranks f hist top_n card ++ es) ws recs msgs
  trim-Sums top_n (failed e) h = h
  trim-Sums top_n (done card) {es} {ws} {recs} {msgs} h =
      elim (ltb 0 top_n && ltb top_n card)
        as (λ b.
          Sums
            ((if b then remove_ranks (text "leaderboard") 0 (card - top_n - 1) ∷ [] else []) ++ es)
            ws recs msgs) [
              | true ↦ record { windows = h.windows; records = h.records; messages = h.messages }
              | false ↦ h
            ]

  pub publish-Sums :
      (top_n : ℕ) (card : Result ℕ) (ws : List (ContestantWindow f)) (recs : List Metric)
      → Sums (publish_windows f hist top_n card ws ++ insert_pending f hist recs) ws recs []
  publish-Sums top_n card [] recs = insert-Sums recs
  publish-Sums top_n card (w ∷ ws) recs =
      let h = trim-Sums top_n card (insert-Sums recs) in
      record {
        windows = ap₂ ◌++◌ (windows_in-commands_of (w ∷ ws)) h.windows ∙ append-nil _;
        records = h.records;
        messages = h.messages;
      }

  pub commit-Sums :
      (msgs : List ℕ) {es : List (Effect f hist)} {ws : List (ContestantWindow f)}
      {recs : List Metric}
      → Sums es ws recs []
      → Sums (commit_pending f hist msgs ++ es) ws recs msgs
  commit-Sums [] h = h
  commit-Sums (m ∷ ms) h = record {
    windows = h.windows;
    records = h.records;
    messages = ap (λ c. (m ∷ ms) ++ c) h.messages ∙ append-nil _;
  }
