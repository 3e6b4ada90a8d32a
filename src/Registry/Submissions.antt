-- ===== src/Registry/Submissions.antt =====
-- The submissions of a contestant, after any number of them were saved.
use iicpc_distributed_benchm.Base.{
  ℕ, zero, suc, ◌≡◌, ◌≢◌, ◌≤◌, refl, ap, subst, ◌∙◌, false, List, [], ◌∷◌, map, ◌++◌, none, some,
  Text, text, text_eq, text_eq_refl, ne→text_eq, if◌then◌else◌, done, All, All-map₂, take, arith,
}
use iicpc_distributed_benchm.Redis.{Redis, RedisLaws}
use iicpc_distributed_benchm.Judge.Engine.{Submission}
use iicpc_distributed_benchm.Registry.{
  Json, value, answered, submissions_key, store_submission, save_submission, list_submissions,
  read_ids,
}
use iicpc_distributed_benchm.Registry.Reads.{take-map, All-take, IsStored, read_ids_stored}

module _ (r : Redis) (laws : RedisLaws r) (json : Json Submission) where
  open r use {S, get, lrange, set_key, lpush, ltrim}

  -- `SaveSubmission` of each, the last of the list first; Redis answers.
  unfoldable pub save_all : List Submission → S → S
  save_all [] s = s
  save_all (x ∷ older) s = (save_submission r json answered x (save_all older s)).1

  abbrev pub DistinctIds : List Submission → Type 0
  DistinctIds [] = Unit
  DistinctIds (x ∷ xs) = All (λ y. x.id ≢ y.id) xs × DistinctIds xs

  abbrev submission_key : Text → Text
  submission_key id = text "submission:" ++ id

  list_apart : (cid id : Text) → text_eq (submissions_key r json cid) (submission_key id) ≡ false
  unfolding text_eq
  list_apart cid id = refl

  apart_list : (cid id : Text) → text_eq (submission_key id) (submissions_key r json cid) ≡ false
  unfolding text_eq
  apart_list cid id = refl

  same_key : (i j : Text) → text_eq (submission_key i) (submission_key j) ≡ text_eq i j
  unfolding text_eq
  same_key i j = refl

  get-store :
      (x : Submission) (j : Text) (s : S)
      → get (store_submission r json x s) (submission_key j)
        ≡ (if text_eq x.id j then some (json.marshal x) else get s (submission_key j))
  unfolding store_submission
  get-store x j s =
      let key = submissions_key r json x.contestant_id in
      laws.get-ltrim key (submission_key j) 0 99 _ (list_apart x.contestant_id j)
      ∙ (laws.get-lpush key (submission_key j) x.id _ (list_apart x.contestant_id j)
          ∙ (laws.get-set (submission_key x.id) (submission_key j) (json.marshal x) s
              ∙ ap (λ b. if b then some (json.marshal x) else get s (submission_key j))
                  (same_key x.id j)))

  abbrev Stored : S → Submission → Type 0
  Stored s x = IsStored r json (text "submission:") (λ y. y.id) s x

  abbrev pub ReadsBack : Submission → Type 0
  ReadsBack x = json.unmarshal (json.marshal x) ≡ done x

  save_all-Stored :
      (xs : List Submission) (s : S)
      → DistinctIds xs
      → All ReadsBack xs
      → All (Stored (save_all xs s)) xs
  unfolding save_all save_submission
  save_all-Stored [] s d b = tt
  save_all-Stored (x ∷ xs) s d b = (
    record { at_key = get-store x x.id (save_all xs s) ∙ rw (text_eq_refl x.id) refl; back = b.0 },
    All-map₂ (λ y. x.id ≢ y.id) (Stored (save_all xs s)) (Stored (save_all (x ∷ xs) s)) xs later d.0
        (save_all-Stored xs s d.1 b.1),
  )
    where
      later :
          (y : Submission) → x.id ≢ y.id → Stored (save_all xs s) y → Stored (save_all (x ∷ xs) s) y
      later y ne h = record {
        at_key = get-store x y.id (save_all xs s) ∙ rw (ne→text_eq x.id y.id ne) h.at_key;
        back = h.back;
      }

  lrange-store_first :
      (x : Submission) (s : S)
      → lrange (store_submission r json x s) (submissions_key r json x.contestant_id) 0 0
        ≡ x.id ∷ []
  unfolding store_submission
  lrange-store_first x s =
      laws.lrange-ltrim (submissions_key r json x.contestant_id) 99 0 _ (omega arith)
      ∙ laws.lrange-lpush_first (submissions_key r json x.contestant_id) x.id _

  lrange-store :
      (x : Submission) (n : ℕ) (s : S)
      → suc n ≤ 99
      → lrange (store_submission r json x s) (submissions_key r json x.contestant_id) 0 (suc n)
        ≡ x.id ∷ lrange s (submissions_key r json x.contestant_id) 0 n
  unfolding store_submission
  lrange-store x n s small =
      let key = submissions_key r json x.contestant_id in
      laws.lrange-ltrim key 99 (suc n) _ small
      ∙ (laws.lrange-lpush key x.id n _
          ∙ ap (◌∷◌ x.id) (
              laws.lrange-set (submission_key x.id) key (json.marshal x) 0 n s
                (apart_list x.contestant_id x.id)))

  lrange-save_all :
      (cid : Text) (s : S)
      → ((n : ℕ) → n ≤ 99 → lrange s (submissions_key r json cid) 0 n ≡ [])
      → (xs : List Submission) → All (λ x. x.contestant_id ≡ cid) xs
      → (n : ℕ) → n ≤ 99
      → lrange (save_all xs s) (submissions_key r json cid) 0 n ≡ take (suc n) (map (λ x. x.id) xs)
  unfolding save_all save_submission
  lrange-save_all cid s empty [] own n small = empty n small
  lrange-save_all cid s empty (x ∷ xs) own zero small =
      rw (← own.0) (lrange-store_first x (save_all xs s))
  lrange-save_all cid s empty (x ∷ xs) own (suc n) small =
      subst
        (λ c.
          lrange (store_submission r json x (save_all xs s)) (submissions_key r json c) 0 (suc n)
          ≡ x.id ∷ lrange (save_all xs s) (submissions_key r json c) 0 n)
        own.0 (lrange-store x n (save_all xs s) small)
      ∙ ap (◌∷◌ x.id) (lrange-save_all cid s empty xs own.1 n (omega arith))

  -- Submissions of one contestant (the newest first, with distinct ids, and such that package json
  -- reads back what it wrote of them), saved one after another from a server where that contestant
  -- has none, while Redis answers: `ListSubmissions` returns the last hundred of them, the newest
  -- first.
  pub list_submissions-save_all :
      (cid : Text) (xs : List Submission) (s : S)
      → ((n : ℕ) → n ≤ 99 → lrange s (text "submissions:contestant:" ++ cid) 0 n ≡ [])
      → All (λ x. x.contestant_id ≡ cid) xs
      → DistinctIds xs
      → All ReadsBack xs
      → list_submissions r json none none cid (save_all xs s) ≡ value (take 100 xs)
  unfolding list_submissions
  list_submissions-save_all cid xs s empty own distinct back =
      ap (λ ids. read_ids r json none (text "submission:") ids (save_all xs s))
        (lrange-save_all cid s empty xs own 99 (omega arith) ∙ take-map (λ x. x.id) 100 xs)
      ∙ read_ids_stored r json (text "submission:") (λ x. x.id) laws (save_all xs s) (take 100 xs)
          (All-take (Stored (save_all xs s)) 100 xs (save_all-Stored xs s distinct back))
