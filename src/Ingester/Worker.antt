-- ===== src/Ingester/Worker.antt =====
-- The workers of cmd/telemetry_ingester/main.go: each fetches messages from Kafka, decodes them and
-- sends them to the collector. `unmarshal` is that of package proto.
use mathlib.Core.List.{filter_map}
use iicpc_distributed_benchm.Base.{
  ℕ, ◌≡◌, refl, ap, List, [], ◌∷◌, map, Option, none, some, Bool, true, false, Text, Result, done,
  failed,
}
use iicpc_distributed_benchm.Telemetry.{Metric}
use iicpc_distributed_benchm.Ingester.{Decoded}

-- What `FetchMessage` returns: a message with its value, or an error. `closing` says that the context
-- is done: for a message, that the `select` after its decoding finds it so and chooses it.
pub data Fetch : Type 0 where
  fetched : (value : Text) (msg : ℕ) (closing : Bool) → Fetch
  fetch_error : (error : Text) (closing : Bool) → Fetch

-- What a worker has sent to the channel, and the messages that it has committed itself.
pub record Sent : Type 0 where
  pub decoded : List Decoded
  pub committed : List ℕ

abbrev pub nothing_sent : Sent
nothing_sent = record { decoded = []; committed = [] }

abbrev pub unless_closing : Bool → Sent → Sent
unless_closing true rest = nothing_sent
unless_closing false rest = rest

abbrev pub after_decode : Result Metric → ℕ → Bool → Sent → Sent
after_decode (failed e) msg closing rest = record rest { committed = msg ∷ rest.committed }
after_decode (done rec) msg closing rest =
    unless_closing closing
      (record rest { decoded = record { rec = rec; msg = msg } ∷ rest.decoded })

abbrev pub option_of : Result Metric → Option Metric
option_of (failed e) = none
option_of (done rec) = some rec

module _ (unmarshal : Text → Result Metric) where
  unfoldable pub run_worker : List Fetch → Sent
  run_worker [] = nothing_sent
  run_worker (fetch_error e closing ∷ fs) = unless_closing closing (run_worker fs)
  run_worker (fetched value msg closing ∷ fs) =
      after_decode (unmarshal value) msg closing (run_worker fs)

  abbrev pub decode : Text → Option Metric
  decode value = option_of (unmarshal value)

  -- The context is not done while the worker runs.
  abbrev pub IsOpen : List Fetch → Type 0
  IsOpen [] = Unit
  IsOpen (fetched value msg closing ∷ fs) = (closing ≡ false) × IsOpen fs
  IsOpen (fetch_error e closing ∷ fs) = (closing ≡ false) × IsOpen fs

  abbrev pub values : List Fetch → List Text
  values [] = []
  values (fetched value msg closing ∷ fs) = value ∷ values fs
  values (fetch_error e closing ∷ fs) = values fs

  records : Sent → List Metric
  records s = map (λ d. d.rec) s.decoded

  step :
      (r : Result Metric) (value : Text) (msg : ℕ) (rest : Sent) (vs : List Text)
      → unmarshal value ≡ r
      → records rest ≡ filter_map decode vs
      → records (after_decode r msg false rest) ≡ filter_map decode (value ∷ vs)
  unfolding records filter_map
  step (failed e) value msg rest vs h ih = rw (h, decode) ih
  step (done rec) value msg rest vs h ih = rw (h, decode) (ap (◌∷◌ rec) ih)

  -- A worker sends what it can decode of what it fetches, in order.
  pub run_worker-records :
      (fs : List Fetch)
      → IsOpen fs
      → map (λ d. d.rec) (run_worker fs).decoded ≡ filter_map decode (values fs)
  unfolding run_worker records filter_map
  run_worker-records [] h = refl
  run_worker-records (fetch_error e closing ∷ fs) h = rw (h.0) (run_worker-records fs h.1)
  run_worker-records (fetched value msg closing ∷ fs) h = rw (h.0) (
      step (unmarshal value) value msg (run_worker fs) (values fs) refl (run_worker-records fs h.1))
