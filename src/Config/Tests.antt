-- ===== src/Config/Tests.antt =====
-- Runs.
use iicpc_distributed_benchm.Base.{◌≡◌, refl, [], ◌∷◌, text, split, trim_space}
use iicpc_distributed_benchm.Config.{brokers_from_csv, split_csv}

brokers_from_csv_run : brokers_from_csv (text " a:1, ,b c:2,") ≡ text "a:1" ∷ text "b c:2" ∷ []
unfolding brokers_from_csv split trim_space
brokers_from_csv_run = refl

split_csv_run : split_csv (text " a:1, ,b c:2,") ≡ text "a:1" ∷ text "bc:2" ∷ []
unfolding split_csv
split_csv_run = refl
