-- ===== src/Tests/Server.antt =====
-- A Redis server for the tests: strings, lists, sets and sorted sets as functions of their keys.
-- Only `ZREMRANGEBYRANK` from rank 0 is there.
use iicpc_distributed_benchm.Base.{
  ℕ, zero, suc, ◌≡◌, ◌≤◌, ◌<◌, ◌-◌, ◌+◌, leb, length, get_elem?, subst, fun_ext, Bool-cases, inl,
  inr, refl, ap, ◌∙◌, if◌then◌else◌, List, [], ◌∷◌, map, Bool, true, false, ◌||◌, Option, none,
  some, Text, text_eq, text_eq_refl, take, drop, arith,
}
use iicpc_distributed_benchm.Redis.{Redis, RedisLaws}
use iicpc_distributed_benchm.Redis.Ranks.{Ranks, RanksLaws}
use iicpc_distributed_benchm.Tests.Instances.{whole}
use iicpc_distributed_benchm.Tests.Ranked.{
  Zset, score_or_zero, put_score, erase, insert_ranked, IsRanked, IsRanked-le, take-IsRanked,
  insert_ranked-IsRanked, erase-IsRanked,
}

pub record Server : Type 0 where
  pub strings : Text → Option Text
  pub lists : Text → List Text
  pub sets : Text → List Text
  pub zsets : Text → Zset

abbrev pub empty_server : Server
empty_server = record {
  strings = λ k. none;
  lists = λ k. [];
  sets = λ k. [];
  zsets = λ k. record { score = λ m. none; members = []; ranked = tt };
}

abbrev pub is_set : Option Text → Bool
is_set none = false
is_set (some v) = true

abbrev pub has_element : List Text → Bool
has_element [] = false
has_element (v ∷ vs) = true

abbrev pub range : List Text → ℕ → ℕ → List Text
range xs a b = drop a (take (suc b) xs)

abbrev pub put : {A : Type 0} → Text → A → (Text → A) → Text → A
put k v s j = if text_eq k j then v else s j

abbrev pub server : Redis
server = record {
  S = Server;
  get = λ s k. s.strings k;
  mget = λ s keys. map s.strings keys;
  exists_key = λ s k. is_set (s.strings k) || has_element (s.lists k) || has_element (s.sets k);
  smembers = λ s k. s.sets k;
  lrange = λ s k a b. range (s.lists k) a b;
  set_key = λ k v s. record s { strings = put k (some v) s.strings };
  sadd = λ k v s. record s { sets = put k (v ∷ s.sets k) s.sets };
  lpush = λ k v s. record s { lists = put k (v ∷ s.lists k) s.lists };
  ltrim = λ k a b s. record s { lists = put k (range (s.lists k) a b) s.lists };
}

put_same : {A : Type 0} (k : Text) (v : A) (s : Text → A) → put k v s k ≡ v
put_same k v s = rw (text_eq_refl k) refl

put_other :
    {A : Type 0} (k j : Text) (v : A) (s : Text → A) → text_eq k j ≡ false → put k v s j ≡ s j
put_other k j v s h = rw h refl

take-take : (xs : List Text) (m n : ℕ) → n ≤ m → take n (take m xs) ≡ take n xs
take-take xs m zero h = refl
take-take xs zero (suc n) h = absurd (omega (arith, h))
take-take [] (suc m) (suc n) h = refl
take-take (x ∷ xs) (suc m) (suc n) h = ap (◌∷◌ x) (take-take xs m n (omega arith))

pub server_laws : RedisLaws server
server_laws = record {
  mget-map = λ s keys. refl;
  get-set = λ k j v s. refl;
  get-sadd = λ k j v s h. refl;
  get-lpush = λ k j v s h. refl;
  get-ltrim = λ k j a b s h. refl;
  exists-set = λ k v s. rw (put_same k (some v) s.strings) refl;
  exists-sadd = λ k j v s h. rw (put_other k j (v ∷ s.sets k) s.sets h) refl;
  lrange-set = λ k j v a b s h. refl;
  lrange-lpush_first = λ k v s. ap (λ xs. range xs 0 0) (put_same k (v ∷ s.lists k) s.lists);
  lrange-lpush = λ k v n s. ap (λ xs. range xs 0 (suc n)) (put_same k (v ∷ s.lists k) s.lists);
  lrange-lpush_ne =
      λ k j v a b s h. ap (λ xs. range xs a b) (put_other k j (v ∷ s.lists k) s.lists h);
  lrange-ltrim = λ k m n s small.
      ap (λ xs. range xs 0 n) (put_same k (range (s.lists k) 0 m) s.lists)
      ∙ take-take (s.lists k) (suc m) (suc n) (omega arith);
  lrange-ltrim_ne =
      λ k j m a b s h. ap (λ xs. range xs a b) (put_other k j (range (s.lists k) 0 m) s.lists h);
}

pub put-score_or_zero :
    (m : Text) (v : ℕ) (sc : Text → Option ℕ)
    → put_score m v (score_or_zero sc) ≡ score_or_zero (put m (some v) sc)
put-score_or_zero m v sc = fun_ext (λ x. elim (Bool-cases (text_eq m x)) [
  | inl e ↦ rw (e, score_or_zero) refl
  | inr e ↦ rw (e, score_or_zero) refl
])

abbrev add_member : Text → ℕ → Zset → Zset
add_member m v z = record {
  score = put m (some v) z.score;
  members = insert_ranked (score_or_zero (put m (some v) z.score)) m (erase m z.members);
  ranked = insert_ranked-IsRanked (score_or_zero (put m (some v) z.score)) m (erase m z.members) (
      subst (λ sc. IsRanked sc (erase m z.members)) (put-score_or_zero m v z.score)
        (erase-IsRanked (score_or_zero z.score) m v z.members z.ranked));
}

abbrev keep_highest : ℕ → Zset → Zset
keep_highest n z = record {
  score = z.score;
  members = take n z.members;
  ranked = take-IsRanked (score_or_zero z.score) n z.members z.ranked;
}

abbrev pub ranks : Ranks whole server
ranks = record {
  zadd = λ k v m s. record s { zsets = put k (add_member m v (s.zsets k)) s.zsets };
  zremrangebyrank = λ k a b s. record s {
    zsets = put k (keep_highest (length (s.zsets k).members - (b + 1)) (s.zsets k)) s.zsets;
  };
  zcard = λ s k. length (s.zsets k).members;
  zscore = λ s k m. (s.zsets k).score m;
  zrevrange = λ s k a b. range (s.zsets k).members a b;
}

take-take_less : (xs : List Text) (m n : ℕ) → take m (take n xs) ≡ take n (take m xs)
take-take_less xs zero zero = refl
take-take_less xs zero (suc n) = refl
take-take_less xs (suc m) zero = refl
take-take_less [] (suc m) (suc n) = refl
take-take_less (x ∷ xs) (suc m) (suc n) = ap (◌∷◌ x) (take-take_less xs m n)

scored : (sc : Text → Option ℕ) (x : Text) (a : ℕ) → sc x ≡ some a → score_or_zero sc x ≡ a
scored sc x a e = ap (λ o. elim o [ none ↦ 0 | some v ↦ v ]) e

range-IsRanked_le :
    (z : Zset) (m i j : ℕ) (x y : Text) (a b : ℕ)
    → i < j
    → get_elem? (range z.members 0 m) i ≡ some x
    → get_elem? (range z.members 0 m) j ≡ some y
    → z.score x ≡ some a
    → z.score y ≡ some b
    → leb b a ≡ true
range-IsRanked_le z m i j x y a b before ex ey ea eb =
    let le =
      IsRanked-le (score_or_zero z.score) (take (suc m) z.members) i j x y
        (take-IsRanked (score_or_zero z.score) (suc m) z.members z.ranked) before ex ey in
    ground (arith, le, scored z.score x a ea, scored z.score y b eb)

pub ranks_laws : RanksLaws whole server ranks
ranks_laws = record {
  get-zadd = λ k j m v s h. refl;
  get-zremrangebyrank = λ k j a b s h. refl;
  zscore-zadd =
      λ k m x v s h. ap (λ z. z.score x) (put_same k (add_member m v (s.zsets k)) s.zsets);
  zscore-set = λ k j v x s h. refl;
  zrevrange-lowest_removed = λ k n m s more.
      ap (λ z. range z.members 0 m) (put_same k _ s.zsets)
      ∙ (ap (λ c. take (suc m) (take c (s.zsets k).members)) (omega (arith, more))
          ∙ take-take_less (s.zsets k).members (suc m) n);
  zscore-lowest_removed =
      λ k x n m i s more at. ap (λ z. z.score x) (put_same k (keep_highest _ (s.zsets k)) s.zsets);
  zrevrange_sorted = λ k m i j x y a b s before ex ey ea eb.
      range-IsRanked_le (s.zsets k) m i j x y a b before ex ey ea eb;
}
