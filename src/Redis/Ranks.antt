-- ===== src/Redis/Ranks.antt =====
-- The commands on sorted sets that cmd/telemetry_ingester/main.go and cmd/leaderboard_api/main.go
-- send, with what the documentation of Redis says of them. Scores are floats.
use iicpc_distributed_benchm.Base.{
  ℕ, ◌-◌, ◌<◌, ◌≡◌, if◌then◌else◌, List, take, get_elem?, true, false, Option, some, Text, text_eq,
}
use iicpc_distributed_benchm.Float.{Float64}
use iicpc_distributed_benchm.Redis.{Redis}

module _ (f : Float64) (r : Redis) where
  open r use {S, get, set_key}

  pub record Ranks : Type 0 where
    pub zadd : Text → f.F → Text → S → S  -- `ZADD` of one member
    pub zremrangebyrank : Text → ℕ → ℕ → S → S  -- `ZREMRANGEBYRANK` between two ranks, from the lowest
    pub zcard : S → Text → ℕ  -- `ZCARD`
    pub zscore : S → Text → Text → Option f.F  -- the score of a member
    pub zrevrange : S → Text → ℕ → ℕ → List Text  -- `ZREVRANGE` between two ranks, from the highest

  module _ (z : Ranks) where
    open z use {zadd, zremrangebyrank, zcard, zscore, zrevrange}

    pub record RanksLaws : Type 0 where
      pub get-zadd :
          (k j m : Text) (v : f.F) (s : S) → text_eq k j ≡ false → get (zadd k v m s) j ≡ get s j
      pub get-zremrangebyrank :
          (k j : Text) (a b : ℕ) (s : S)
          → text_eq k j ≡ false
          → get (zremrangebyrank k a b s) j ≡ get s j
      -- Redis takes any score but NaN, which is not at most itself.
      pub zscore-zadd :
          (k m x : Text) (v : f.F) (s : S)
          → f.leb v v ≡ true
          → zscore (zadd k v m s) k x ≡ (if text_eq m x then some v else zscore s k x)
      pub zscore-set :
          (k j v x : Text) (s : S) → text_eq j k ≡ false → zscore (set_key j v s) k x ≡ zscore s k x
      -- Without its lowest members, down to `n` of them, the set has its `n` highest.
      pub zrevrange-lowest_removed :
          (k : Text) (n m : ℕ) (s : S)
          → n < zcard s k
          → zrevrange (zremrangebyrank k 0 (zcard s k - n - 1) s) k 0 m ≡ take n (zrevrange s k 0 m)
      -- A member that is left keeps its score.
      pub zscore-lowest_removed :
          (k x : Text) (n m i : ℕ) (s : S)
          → n < zcard s k
          → get_elem? (zrevrange (zremrangebyrank k 0 (zcard s k - n - 1) s) k 0 m) i ≡ some x
          → zscore (zremrangebyrank k 0 (zcard s k - n - 1) s) k x ≡ zscore s k x
      -- A member that ranks before another has no lower score.
      pub zrevrange_sorted :
          (k : Text) (m i j : ℕ) (x y : Text) (a b : f.F) (s : S)
          → i < j
          → get_elem? (zrevrange s k 0 m) i ≡ some x
          → get_elem? (zrevrange s k 0 m) j ≡ some y
          → zscore s k x ≡ some a
          → zscore s k y ≡ some b
          → f.leb b a ≡ true
