-- ===== src/Judge/Ready/Bounded.antt =====
-- How often `waitForGRPC` dials.
use iicpc_distributed_benchm.Base.{
  ℕ, zero, suc, ◌+◌, ◌*◌, ◌≤◌, ◌<◌, ◌≡◌, refl, ltb, lt→ltb, ◌⊎◌, inl, inr, Bool-cases, List, [],
  ◌∷◌, true, Option, none, some, Text, length, arith,
}
use iicpc_distributed_benchm.Judge.Ready.{Attempt, after_dial, wait_loop, wait_for_grpc}

-- The loop sleeps 300 ms between its rounds: after each dial at least that much has passed since the
-- one before, and the first ends no earlier than the call.
abbrev pub Spaced : ℕ → List Attempt → Type 0
Spaced from [] = Unit
Spaced from (a ∷ rest) = (from ≤ a.now) × Spaced (a.now + 300_000_000) rest

Returns : Option (Option Text) → Type 0
Returns o = (r : Option Text) × (o ≡ some r)

-- A round returns if the deadline has passed, or if the rounds after it do.
after_dial-Returns :
    (addr : Text) (deadline : ℕ) (a : Attempt) (rest : Option (Option Text))
    → (ltb deadline a.now ≡ true) ⊎ Returns rest
    → Returns (after_dial addr deadline a.dial_error a.now a.done_error rest)
unfolding Returns
after_dial-Returns addr deadline a rest h = dialled a.dial_error a.done_error h
  where
    dialled :
        (e stopped : Option Text)
        → (ltb deadline a.now ≡ true) ⊎ ((r : Option Text) × (rest ≡ some r))
        → (r : Option Text) × (after_dial addr deadline e a.now stopped rest ≡ some r)
    dialled none stopped h = (none, refl)
    dialled (some e) stopped (inl late) = rw late (_, refl)
    dialled (some e) (some d) (inr (r, h)) = elim (Bool-cases (ltb deadline a.now)) [
      | inl late ↦ rw late (_, refl)
      | inr early ↦ rw early (_, refl)
    ]
    dialled (some e) none (inr (r, h)) = elim (Bool-cases (ltb deadline a.now)) [
      | inl late ↦ rw late (_, refl)
      | inr early ↦ rw early (r, h)
    ]

wait_loop-Returns :
    (addr : Text) (deadline : ℕ) (attempts : List Attempt) (n from : ℕ)
    → Spaced from attempts
    → deadline < from + n * 300_000_000
    → n < length attempts
    → Returns (wait_loop addr deadline attempts)
unfolding wait_loop
wait_loop-Returns addr deadline [] n from sp late enough = absurd (omega arith)
wait_loop-Returns addr deadline (a ∷ rest) zero from sp late enough =
    after_dial-Returns addr deadline a _ (inl (lt→ltb deadline a.now (omega (arith, sp.0))))
wait_loop-Returns addr deadline (a ∷ rest) (suc n) from sp late enough =
    after_dial-Returns addr deadline a _ (
      inr (
        wait_loop-Returns addr deadline rest n (a.now + 300_000_000) sp.1 (omega (arith, sp.0))
          (omega arith)))

-- `waitForGRPC` returns after at most 35 dials, if each dial ends at least 300 ms after the one
-- before (the first no earlier than the call) and 35 of them are made.
pub wait_for_grpc-returns :
    (addr : Text) (start : ℕ) (attempts : List Attempt)
    → Spaced start attempts
    → 35 ≤ length attempts
    → (r : Option Text) × (wait_for_grpc addr start attempts ≡ some r)
unfolding wait_for_grpc Returns
wait_for_grpc-returns addr start attempts sp enough =
    wait_loop-Returns addr _ attempts 34 start sp (omega arith) (omega arith)
