-- ===== src/LeaderboardApi/Handlers/Ranks.antt =====
-- The leaderboard that a client sees.
use iicpc_distributed_benchm.Base.{
  ℕ, ◌-◌, ◌≡◌, ◌≢◌, refl, ap, ◌∙◌, List, [], ◌∷◌, ◌++◌, map, Option, none, some, Option-cases, inl,
  inr, Text, text, ne→text_eq, Result, done, failed,
}
use iicpc_distributed_benchm.Redis.{Redis, RedisLaws}
use iicpc_distributed_benchm.LeaderboardApi.Parameters.{parse_limit}
use iicpc_distributed_benchm.LeaderboardApi.Handlers.{
  json_value, Objects, payload, add_entry, respond_ranks, leaderboard_key, leaderboard,
}

module _ (objects : Objects) where
  open objects use {Obj, decode, set_field}

  -- The entry of the contestant, where there is one that decodes.
  abbrev pub entry : Text → Option Text → List Obj
  entry cid none = []
  entry cid (some v) = add_entry objects cid (decode v) []

  abbrev pub entries : (Text → Option Text) → List Text → List Obj
  entries value [] = []
  entries value (cid ∷ cids) = entry cid (value cid) ++ entries value cids

  add_entry-append :
      (cid : Text) (r : Result Obj) (rest : List Obj)
      → add_entry objects cid r rest ≡ add_entry objects cid r [] ++ rest
  add_entry-append cid (failed e) rest = refl
  add_entry-append cid (done obj) rest = refl

  payload-entries :
      (value : Text → Option Text) (cids : List Text)
      → payload objects cids (map value cids) ≡ entries value cids
  unfolding payload
  payload-entries value [] = refl
  payload-entries value (cid ∷ cids) = elim (Option-cases (value cid)) [
    | inl none_there ↦ rw none_there (payload-entries value cids)
    | inr (v, e) ↦ rw e (
        add_entry-append cid (decode v) _
        ∙ ap (λ t. add_entry objects cid (decode v) [] ++ t) (payload-entries value cids))
  ]

  map-map :
      {A B C : Type 0} (g : B → C) (h : A → B) (xs : List A)
      → map g (map h xs) ≡ map (λ x. g (h x)) xs
  map-map g h [] = refl
  map-map g h (x ∷ xs) = ap (◌∷◌ (g (h x))) (map-map g h xs)

  respond_ranks-entries :
      (r : Redis) (laws : RedisLaws r) (s : r.S) (cids : List Text)
      → respond_ranks objects (λ keys. done (r.mget s keys)) (done cids)
        ≡ json_value (entries (λ cid. r.get s (leaderboard_key objects cid)) cids)
  respond_ranks-entries r laws s [] = refl
  respond_ranks-entries r laws s (cid ∷ cids) =
      ap (λ vs. json_value (payload objects (cid ∷ cids) vs))
        (laws.mget-map s _ ∙ map-map (r.get s) (leaderboard_key objects) (cid ∷ cids))
      ∙ ap json_value (payload-entries (λ c. r.get s (leaderboard_key objects c)) (cid ∷ cids))

  -- With a method other than OPTIONS, and a Redis that ranks `cids` first and answers `MGET`: the
  -- leaderboard is the entries of these contestants, in the order of their ranks, each with the
  -- contestant's own id; a contestant without an entry, or with one that is no JSON, is left out.
  pub leaderboard-entries :
      (r : Redis) (laws : RedisLaws r) (s : r.S) (zrevrange : ℕ → ℕ → Result (List Text))
      (cids : List Text) (method limit : Text)
      → method ≢ text "OPTIONS"
      → zrevrange 0 (parse_limit limit - 1) ≡ done cids
      → leaderboard objects zrevrange (λ keys. done (r.mget s keys)) method limit
        ≡ json_value (entries (λ cid. r.get s (text "leaderboard:" ++ cid)) cids)
  unfolding leaderboard
  leaderboard-entries r laws s zrevrange cids method limit other ranked =
      rw (ne→text_eq method (text "OPTIONS") other, ranked) (respond_ranks-entries r laws s cids)
