-- ===== src/Tests/Shown.antt =====
-- What a client sees after a flush, and a queue at its end, at concrete inputs.
use iicpc_distributed_benchm.Base.{
  ℕ, ◌≡◌, ◌≤◌, ◌<◌, List, [], ◌∷◌, ◌++◌, true, decimal, some, none, Text, text, All, get_elem?,
  done, arith,
}
use iicpc_distributed_benchm.Tests.Instances.{whole, listed, measured}
use iicpc_distributed_benchm.Tests.Server.{
  Server, server, server_laws, ranks, ranks_laws, empty_server,
}
use iicpc_distributed_benchm.Tests.Judging.{after_send, send_reached}
use iicpc_distributed_benchm.Tests.Collected.{settings}
use iicpc_distributed_benchm.Tests.Measures.{empty, measurements, parameters}
use iicpc_distributed_benchm.Tests.Web.{objects}
use iicpc_distributed_benchm.Ingest.{ContestantWindow}
use iicpc_distributed_benchm.Ingest.Flush.{find_window, DistinctWindows, flush_reports}
use iicpc_distributed_benchm.Ingest.Cell.{add_all}
use iicpc_distributed_benchm.Ingester.{Collector}
use iicpc_distributed_benchm.LeaderboardApi.Handlers.{json_value, leaderboard}
use iicpc_distributed_benchm.LeaderboardApi.Handlers.Ranks.{entries}
use iicpc_distributed_benchm.LeaderboardApi.Applied.{given, HasScore}
use iicpc_distributed_benchm.LeaderboardApi.Shown
use iicpc_distributed_benchm.LeaderboardApi.Shown.{flushed_windows, with_windows, flush_shown}
use iicpc_distributed_benchm.JudgeApi.Queue.{Service}
use iicpc_distributed_benchm.JudgeApi.Queue.Settled.{Drains, work, IsSettled, queue_settles}

queue_settles_example :
    ((t : Service) × Drains (work after_send) after_send t)
    × ((n : ℕ) (t : Service) → Drains n after_send t → n ≤ work after_send)
    × ((t : Service) → Drains (work after_send) after_send t → IsSettled after_send.entered t)
queue_settles_example = queue_settles after_send send_reached

-- The collector has three measurements.
abbrev collector : Collector whole listed
collector = record {
  agg = add_all whole listed empty measurements;
  pending = measured 1000 9000 ∷ [];
  to_commit = 1 ∷ [];
}

abbrev show : ContestantWindow whole → Text
show w = w.contestant_id ++ text ": " ++ decimal w.count

all_scored : (ws : List (ContestantWindow whole)) → All (HasScore whole) ws
all_scored [] = tt
all_scored (w ∷ ws) = (ground arith, all_scored ws)

collector-DistinctWindows : DistinctWindows whole listed (
    flushed_windows whole listed server ranks show server_laws ranks_laws objects settings 5
      collector)
collector-DistinctWindows =
    (flush_reports whole listed 0 1_000_000_000 parameters measurements 5 1_000_000_000
      (text "alice") (omega arith, (omega arith, (omega arith, tt))) (omega arith)).1

abbrev after : Server → Server
after s =
    Shown.after_flush whole listed server ranks show server_laws ranks_laws objects settings 5
      collector s

abbrev windows : List (ContestantWindow whole)
windows =
    flushed_windows whole listed server ranks show server_laws ranks_laws objects settings 5
      collector

abbrev top : List Text
top =
    Shown.listed whole listed server ranks show server_laws ranks_laws objects settings 5 collector
      (text "5") empty_server

flush_shown_example :
    (leaderboard objects
        (λ a b. done (ranks.zrevrange (after empty_server) (text "leaderboard") a b))
        (λ keys. done (server.mget (after empty_server) keys))
        (text "GET")
        (text "5")
      ≡ json_value (
          entries objects
            (λ cid. given whole (λ w. some (show w)) (find_window whole listed cid windows) none)
            top))
    × ((i : ℕ) (cid : Text)
        → get_elem? top i ≡ some cid
        → ranks.zscore (after empty_server) (text "leaderboard") cid
          ≡ given whole (λ w. some w.score) (find_window whole listed cid windows) none)
    × ((i j : ℕ) (x y : Text) (a b : ℕ)
        → i < j
        → get_elem? top i ≡ some x
        → get_elem? top j ≡ some y
        → ranks.zscore (after empty_server) (text "leaderboard") x ≡ some a
        → ranks.zscore (after empty_server) (text "leaderboard") y ≡ some b
        → whole.leb b a ≡ true)
flush_shown_example =
    flush_shown whole listed server ranks show server_laws ranks_laws objects settings 5 collector
      empty_server (text "5") collector-DistinctWindows (all_scored windows)
