-- ===== src/Registry/Reads.antt =====
-- Reading the values of a list of ids back.
use iicpc_distributed_benchm.Base.{
  ℕ, zero, suc, ◌≡◌, refl, ap, ◌∙◌, List, [], ◌∷◌, map, ◌++◌, none, some, Text, done, All, take,
}
use iicpc_distributed_benchm.Redis.{Redis, RedisLaws}
use iicpc_distributed_benchm.Registry.{Json, value, decode_all, read_ids}

pub take-map :
    {A B : Type 0} (f : A → B) (n : ℕ) (xs : List A) → take n (map f xs) ≡ map f (take n xs)
take-map f zero xs = refl
take-map f (suc n) [] = refl
take-map f (suc n) (x ∷ xs) = ap (◌∷◌ (f x)) (take-map f n xs)

pub All-take : {A : Type 0} (P : A → Type 0) (n : ℕ) (xs : List A) → All P xs → All P (take n xs)
All-take P zero xs h = tt
All-take P (suc n) [] h = tt
All-take P (suc n) (x ∷ xs) h = (h.0, All-take P n xs h.1)

module _ (r : Redis) {A : Type 0} (json : Json A) (prefix : Text) (id : A → Text) where
  -- The value stands at its key, and package json reads back what it wrote of it.
  pub record IsStored (s : r.S) (x : A) : Type 0 where
    pub at_key : r.get s (prefix ++ id x) ≡ some (json.marshal x)
    pub back : json.unmarshal (json.marshal x) ≡ done x

  decode_stored :
      (s : r.S) (xs : List A)
      → All (IsStored s) xs
      → decode_all r json (map (r.get s) (map (λ i. prefix ++ i) (map id xs))) ≡ xs
  decode_stored s [] h = refl
  decode_stored s (x ∷ xs) h = rw (h.0.at_key, h.0.back) (ap (◌∷◌ x) (decode_stored s xs h.1))

  -- What is stored is read, in the order of the ids.
  pub read_ids_stored :
      (laws : RedisLaws r) (s : r.S) (xs : List A)
      → All (IsStored s) xs
      → read_ids r json none prefix (map id xs) s ≡ value xs
  read_ids_stored laws s [] h = refl
  read_ids_stored laws s (x ∷ xs) h =
      ap (λ vs. value (decode_all r json vs)) (laws.mget-map s _)
      ∙ ap value (decode_stored s (x ∷ xs) h)
