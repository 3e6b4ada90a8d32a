-- ===== src/Tests/Collected.antt =====
-- The collector of the ingester, and the rows that it has inserted.
use iicpc_distributed_benchm.Base.{
  false, ℕ, ◌≡◌, ◌↔◌, if◌then◌else◌, ◌==◌, List, [], ◌∷◌, map, Option, none, some, Text, text, All,
  done, failed, length, get_elem?, arith,
}
use iicpc_distributed_benchm.Tests.Instances.{whole, listed, measured}
use iicpc_distributed_benchm.Telemetry.{Metric}
use iicpc_distributed_benchm.Ingest.{default_scoring_params}
use iicpc_distributed_benchm.Ingester.{
  Settings, Event, arrival, tick, cancelled, start_collector, run_collector,
}
use iicpc_distributed_benchm.Ingester.Batches.{received}
use iicpc_distributed_benchm.Ingester.Rounds.{IsTimed}
use iicpc_distributed_benchm.Ingester.Collected.{Collected, run_collector-Collected}
use iicpc_distributed_benchm.Store.{row, record_error, insert_batch}
use iicpc_distributed_benchm.Store.Inserts.{
  AllTaken, failures, errors_of, Reported, insert_batch-reports,
}

abbrev pub settings : Settings whole listed
settings = record { window = 1_000_000_000; top_n = 10 }

-- Two messages, a tick between them, and the end.
abbrev messages : List (Event whole listed)
messages =
    arrival (record { rec = measured 1000 9000; msg = 1 }) false 1 (done 1)
    ∷ tick false 2 (done 1)
    ∷ arrival (record { rec = measured 2000 1000; msg = 2 }) false 3 (done 1)
    ∷ cancelled 4 (failed (text "closed"))
    ∷ []

messages-IsTimed : All (λ d. IsTimed d.rec) (received whole listed messages)
messages-IsTimed = (omega arith, (omega arith, tt))

run_collector-Collected_example :
    Collected whole listed settings
      (default_scoring_params whole)
      (start_collector whole listed settings 0 (default_scoring_params whole))
      (received whole listed messages)
      (run_collector whole listed settings
        (start_collector whole listed settings 0 (default_scoring_params whole))
        messages)
run_collector-Collected_example =
    run_collector-Collected whole listed settings (default_scoring_params whole) 0 messages
      messages-IsTimed

-- The second row fails.
abbrev replies : ℕ → Option Text
replies i = if i == 1 then some (text "null value") else none

insert_batch-reports_example :
    let rs = measured 1 2 ∷ measured 3 4 ∷ [] in
    let (rows, error) = insert_batch 9 replies rs in
    (rows ≡ map (row 9) rs)
    × ((error ≡ none) ↔ AllTaken replies rs)
    × (length (errors_of error) ≡ failures replies 0 (length rs))
    × ((i : ℕ) (r : Metric) (e : Text)
        → get_elem? rs i ≡ some r
        → replies i ≡ some e
        → Reported (record_error i r e) (errors_of error))
insert_batch-reports_example = insert_batch-reports 9 replies (measured 1 2 ∷ measured 3 4 ∷ [])
