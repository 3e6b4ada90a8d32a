-- ===== src/Redis.antt =====
-- The Redis commands that internal/registry/registry.go and internal/judge/judge.go send, as an
-- interface: `Redis` is a server that answers, `RedisLaws` what its documentation says of the
-- commands. A key holds a string, a list or a set, so a law that reads one kind after a write of
-- another is of two different keys.
pub mod Ranks
use iicpc_distributed_benchm.Base.{
  ℕ, suc, ◌≡◌, ◌≤◌, if◌then◌else◌, List, [], ◌∷◌, map, Bool, true, false, Option, some, Text,
  text_eq,
}

pub record Redis : Type 1 where
  pub S : Type 0
  pub get : S → Text → Option Text  -- `GET`, none at a missing key
  pub mget : S → List Text → List (Option Text)  -- `MGET`
  pub exists_key : S → Text → Bool  -- `EXISTS` of one key
  pub smembers : S → Text → List Text  -- `SMEMBERS`
  pub lrange : S → Text → ℕ → ℕ → List Text  -- `LRANGE` between two indexes, both included
  pub set_key : Text → Text → S → S  -- `SET`
  pub sadd : Text → Text → S → S  -- `SADD`
  pub lpush : Text → Text → S → S  -- `LPUSH`
  pub ltrim : Text → ℕ → ℕ → S → S  -- `LTRIM`

module _ (r : Redis) where
  open r use {S, get, mget, exists_key, lrange, set_key, sadd, lpush, ltrim}

  pub record RedisLaws : Type 0 where
    -- `MGET` reads each key; a key that holds no string reads as missing.
    pub mget-map : (s : S) (keys : List Text) → mget s keys ≡ map (get s) keys
    pub get-set :
        (k j v : Text) (s : S) → get (set_key k v s) j ≡ (if text_eq k j then some v else get s j)
    pub get-sadd : (k j v : Text) (s : S) → text_eq k j ≡ false → get (sadd k v s) j ≡ get s j
    pub get-lpush : (k j v : Text) (s : S) → text_eq k j ≡ false → get (lpush k v s) j ≡ get s j
    pub get-ltrim :
        (k j : Text) (a b : ℕ) (s : S) → text_eq k j ≡ false → get (ltrim k a b s) j ≡ get s j
    pub exists-set : (k v : Text) (s : S) → exists_key (set_key k v s) k ≡ true
    pub exists-sadd :
        (k j v : Text) (s : S) → text_eq k j ≡ false → exists_key (sadd k v s) j ≡ exists_key s j
    pub lrange-set :
        (k j v : Text) (a b : ℕ) (s : S)
        → text_eq k j ≡ false
        → lrange (set_key k v s) j a b ≡ lrange s j a b
    -- A pushed value is the first of its list.
    pub lrange-lpush_first : (k v : Text) (s : S) → lrange (lpush k v s) k 0 0 ≡ v ∷ []
    pub lrange-lpush :
        (k v : Text) (n : ℕ) (s : S) → lrange (lpush k v s) k 0 (suc n) ≡ v ∷ lrange s k 0 n
    pub lrange-lpush_ne :
        (k j v : Text) (a b : ℕ) (s : S)
        → text_eq k j ≡ false
        → lrange (lpush k v s) j a b ≡ lrange s j a b
    -- Trimming to the elements up to `m` keeps what stands up to `n`.
    pub lrange-ltrim :
        (k : Text) (m n : ℕ) (s : S) → n ≤ m → lrange (ltrim k 0 m s) k 0 n ≡ lrange s k 0 n
    pub lrange-ltrim_ne :
        (k j : Text) (m a b : ℕ) (s : S)
        → text_eq k j ≡ false
        → lrange (ltrim k 0 m s) j a b ≡ lrange s j a b
