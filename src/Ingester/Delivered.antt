-- ===== src/Ingester/Delivered.antt =====
-- From the bots through Kafka and the ingester to the time series store.
use mathlib.Core.List.{filter_map, Perm}
use mathlib.Core.List.Perm
use iicpc_distributed_benchm.Base.{
  ℕ, ◌≡◌, refl, sym, ap, subst, ◌∙◌, List, [], ◌∷◌, ◌++◌, map, Option-cases, inl, inr, true, Text,
  Result, done, All,
}
use iicpc_distributed_benchm.Float.{Float64}
use iicpc_distributed_benchm.Telemetry.{Metric}
use iicpc_distributed_benchm.Telemetry.RingBuffer.{RingBuffer}
use iicpc_distributed_benchm.Kafka.{message}
use iicpc_distributed_benchm.Ingest.{Histogram, ScoringParams}
use iicpc_distributed_benchm.BotFleet
use iicpc_distributed_benchm.BotFleet.Shared.{publish, run_bots, new_bots}
use iicpc_distributed_benchm.BotFleet.Shared.Projected.{all_of}
use iicpc_distributed_benchm.Ingester.{Decoded, Settings, Event, run_collector, start_collector}
use iicpc_distributed_benchm.Ingester.Batches.{received}
use iicpc_distributed_benchm.Ingester.Rounds.{IsTimed}
use iicpc_distributed_benchm.Ingester.Collected.{all_inserted, is_cancelled, run_collector_sent}
use iicpc_distributed_benchm.Ingester.Worker.{
  Fetch, run_worker, decode, IsOpen, values, run_worker-records,
}

module _ (unmarshal : Text → Result Metric) where
  -- What all workers send, and what they fetch.
  abbrev pub all_sent : List (List Fetch) → List Decoded
  all_sent [] = []
  all_sent (fs ∷ workers) = (run_worker unmarshal fs).decoded ++ all_sent workers

  abbrev pub all_values : List (List Fetch) → List Text
  all_values [] = []
  all_values (fs ∷ workers) = values unmarshal fs ++ all_values workers

  filter_map-append :
      (xs ys : List Text)
      → filter_map (decode unmarshal) (xs ++ ys)
        ≡ filter_map (decode unmarshal) xs ++ filter_map (decode unmarshal) ys
  unfolding filter_map
  filter_map-append [] ys = refl
  filter_map-append (x ∷ xs) ys = elim (Option-cases (decode unmarshal x)) [
    | inl e ↦ rw e (filter_map-append xs ys)
    | inr (m, e) ↦ rw e (ap (◌∷◌ m) (filter_map-append xs ys))
  ]

  map-append :
      (xs ys : List Decoded)
      → map (λ d. d.rec) (xs ++ ys) ≡ map (λ d. d.rec) xs ++ map (λ d. d.rec) ys
  map-append [] ys = refl
  map-append (x ∷ xs) ys = ap (◌∷◌ (x.rec)) (map-append xs ys)

  all_sent-records :
      (workers : List (List Fetch))
      → All (IsOpen unmarshal) workers
      → map (λ d. d.rec) (all_sent workers) ≡ filter_map (decode unmarshal) (all_values workers)
  unfolding filter_map
  all_sent-records [] h = refl
  all_sent-records (fs ∷ workers) h =
      map-append (run_worker unmarshal fs).decoded (all_sent workers)
      ∙ (ap (λ t. t ++ map (λ d. d.rec) (all_sent workers)) (run_worker-records unmarshal fs h.0)
          ∙ (ap (λ t. filter_map (decode unmarshal) (values unmarshal fs) ++ t)
                (all_sent-records workers h.1)
              ∙ sym (filter_map-append (values unmarshal fs) (all_values workers))))

  -- The values of messages decode to the metrics that they were made of.
  decoded_back :
      (marshal : Metric → Text) (ms : List Metric)
      → All (λ m. unmarshal (marshal m) ≡ done m) ms
      → filter_map (decode unmarshal) (map marshal ms) ≡ ms
  unfolding filter_map
  decoded_back marshal [] h = refl
  decoded_back marshal (m ∷ ms) h = rw (h.0, decode) (ap (◌∷◌ m) (decoded_back marshal ms h.1))

message_values :
    (cid : Text) (marshal : Metric → Text) (ms : List Metric)
    → map (λ k. k.value) (map (λ m. message cid (marshal m)) ms) ≡ map marshal ms
message_values cid marshal [] = refl
message_values cid marshal (m ∷ ms) = ap (◌∷◌ (marshal m)) (message_values cid marshal ms)

module _ (f : Float64) (hist : Histogram) (cfg : Settings f hist) (p : ScoringParams f) where
  -- If package proto reads back the metrics, the workers fetch, in any order, the message that each bot
  -- publishes of each metric that it has recorded, each once, while the context is not done, the
  -- channel passes on what they send, each once, and the collector receives it before its context is
  -- done: then the records that the ingester has sent to the database when its loop ends are exactly
  -- the metrics that the bots have recorded, in some order, each once.
  pub delivered :
      (fleet : BotFleet.Config) (marshal : Metric → Text) (unmarshal : Text → Result Metric)
      (ring : RingBuffer Metric) (bot_events : List (ℕ × BotFleet.Event f))
      (workers : List (List Fetch)) (now : ℕ) (es : List (Event f hist))
      → let s = run_bots f fleet (new_bots f fleet ring) bot_events in
        All (λ m. unmarshal (marshal m) ≡ done m) (all_of s.recorded)
        → Perm
            (all_values unmarshal workers)
            (map (λ k. k.value) (publish f fleet marshal true (all_of s.recorded)))
        → All (IsOpen unmarshal) workers
        → Perm (received f hist es) (all_sent unmarshal workers)
        → All (λ d. IsTimed d.rec) (received f hist es)
        → is_cancelled f hist cfg p es ≡ true
        → Perm
            (all_inserted f hist (run_collector f hist cfg (start_collector f hist cfg now p) es).0)
            (all_of s.recorded)
  delivered fleet marshal unmarshal ring bot_events workers now es back fetched undisturbed channel
        timed ends =
      let ms : List Metric =
        all_of (run_bots f fleet (new_bots f fleet ring) bot_events).recorded in
      let published = message_values fleet.contestant_id marshal ms in
      subst (λ recs. Perm recs ms) (sym (run_collector_sent f hist cfg p now es timed ends).0)
        (Perm.trans (Perm.map (λ d. d.rec) channel) (
          subst (λ recs. Perm recs ms) (sym (all_sent-records unmarshal workers undisturbed))
            (subst (Perm _) (decoded_back unmarshal marshal _ back)
              (Perm.filter_map (decode unmarshal) (subst (Perm _) published fetched)))))
