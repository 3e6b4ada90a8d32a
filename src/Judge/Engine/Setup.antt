-- ===== src/Judge/Engine/Setup.antt =====
-- `DefaultConfig` and `New` of internal/judge/judge.go.
use iicpc_distributed_benchm.Base.{◌*◌, ◌≡◌, refl, [], ◌++◌, Option, none, some, Text, text}
use iicpc_distributed_benchm.Judge.Engine.{Config}

-- `DefaultConfig`
abbrev pub default_config : Config
default_config = record {
  sandbox_memory = text "512m";
  sandbox_cpus = 1;
  sandbox_cpu_set = [];
  sandbox_pids = 50;
  sandbox_port = 50052;
  bot_count = 50;
  orders_per_sec = 200;
  duration = 60_000_000_000;
  symbol = text "AAPL";
  kafka_brokers = [];
  kafka_topic = text "metrics";
  redis_addr = text "localhost:6379";
}

-- The error of `New`, for those of the Docker client and of the ping.
unfoldable pub new_engine : Option Text → Option Text → Option Text
new_engine (some e) ping = some (text "docker client: " ++ e)
new_engine none (some e) = some (text "docker daemon unreachable: " ++ e)
new_engine none none = none

-- By default the bots of a run make more orders than its ring buffer has places.
orders_by_default : default_config.bot_count * default_config.orders_per_sec * 60 ≡ 600_000
orders_by_default = refl
