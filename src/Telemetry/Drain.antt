-- ===== src/Telemetry/Drain.antt =====
-- The loop that empties a ring buffer by `PopInto` into one batch, as internal/judge/judge.go
-- (`drainRingBuffer`) and cmd/bot_fleet/main.go (`consumeMetrics`) both write it: `step` is what the
-- inner loop does with one metric. It runs on fuel; `drain_loop_lem` shows how much is enough.
use mathlib.Core.List.{foldl, foldl-append}
use iicpc_distributed_benchm.Base.{
  ℕ, zero, suc, ◌<◌, ◌≡◌, ◌==◌, sym, ap, ◌∙◌, if◌then◌else◌, List, [], ◌++◌, Option, none, some,
  length, take, drop, take-append-drop, length-take, length-drop, arith, min, Bool-cases, false,
  inl, inr, ap₂, length-append, take-append_of_le, eq-nil_of_length, ==_iff,
}
use iicpc_distributed_benchm.Telemetry.RingBuffer.{RingBuffer, pop_into}
use iicpc_distributed_benchm.Telemetry.RingBuffer.Inv.{IsValid, pop_into-IsValid}
use iicpc_distributed_benchm.Telemetry.RingBuffer.Window.{contents}
use iicpc_distributed_benchm.Telemetry.RingBuffer.Refine.{pop_into_refines}
use iicpc_distributed_benchm.Telemetry.RingBuffer.Queue

-- What one call of `PopInto` has done to the batch and to the ring buffer.
pub record Popped {A : Type 0} (rb : RingBuffer A) (batch : List A)
    (out : ℕ × List A × RingBuffer A) : Type 0 where
  pub count : out.0 ≡ min (length batch) (length (contents rb))
  pub front : take out.0 out.1 ≡ take out.0 (contents rb)
  pub rest : contents out.2 ≡ drop out.0 (contents rb)
  pub room : length out.1 ≡ length batch
  pub valid : IsValid out.2

pub pop_into-Popped :
    {A : Type 0} (rb : RingBuffer A) (batch : List A)
    → IsValid rb
    → Popped rb batch (pop_into rb batch)
unfolding Queue.pop_into
pop_into-Popped {A} rb batch v = record {
  count = count;
  front =
      ap₂ take count filled
      ∙ (take-append_of_le m (contents rb) (drop m batch) (omega arith)
          ∙ ap (λ k. take k (contents rb)) (sym count));
  rest = ap (λ t. t.2) same ∙ ap (λ k. drop k (contents rb)) (sym count);
  room =
      ap length filled
      ∙ omega (
        arith,
        length-append (take m (contents rb)) (drop m batch),
        length-take m (contents rb),
        length-drop m batch,
      );
  valid = pop_into-IsValid batch v;
}
  where
    m : ℕ
    m = min (length batch) (length (contents rb))

    same :
        ◌≡◌ {A = ℕ × List A × List A}
          ((pop_into rb batch).0, (pop_into rb batch).1, contents (pop_into rb batch).2)
          (m, take m (contents rb) ++ drop m batch, drop m (contents rb))
    same = pop_into_refines batch v

    count : (pop_into rb batch).0 ≡ m
    count = ap (λ t. t.0) same

    filled : (pop_into rb batch).1 ≡ take m (contents rb) ++ drop m batch
    filled = ap (λ t. t.1) same

module _ {A S : Type 0} (step : S → A → S) where
  pub drain_loop : ℕ → RingBuffer A → List A → S → Option (S × RingBuffer A)
  drain_loop zero rb batch acc = none
  drain_loop (suc fuel) rb batch acc =
      let (n, batch', rb') = pop_into rb batch in
      let rest = drain_loop fuel rb' batch' (foldl step acc (take n batch')) in
      if n == 0 then some (acc, rb') else rest

  -- What a drain that ended has done: every element was passed to `step`, oldest first.
  pub record Drained (rb : RingBuffer A) (acc : S) (out : Option (S × RingBuffer A)) : Type 0 where
    pub last : RingBuffer A
    pub result : out ≡ some (foldl step acc (contents rb), last)
    pub emptied : contents last ≡ []
    pub valid : IsValid last

  -- More rounds than elements stored are enough fuel.
  pub drain_loop_lem :
      (fuel : ℕ) (rb : RingBuffer A) (batch : List A) (acc : S)
      → IsValid rb
      → 0 < length batch
      → length (contents rb) < fuel
      → Drained rb acc (drain_loop fuel rb batch acc)
  unfolding drain_loop
  drain_loop_lem zero rb batch acc v room enough = elim enough [ ]
  drain_loop_lem (suc fuel) rb batch acc v room enough = elim (Bool-cases (n == 0)) [
    | inl done ↦
        let n_zero = (==_iff n 0).0 done in
        let empty = eq-nil_of_length (contents rb) (omega (arith, popped.count, n_zero)) in
        rw done (record {
          last = rb';
          result = ap (λ q. some (foldl step acc q, rb')) (sym empty);
          emptied = popped.rest ∙ ap₂ drop n_zero empty;
          valid = popped.valid;
        })
    | inr more ↦
        let shorter : length (contents rb') < fuel =
          rw popped.rest
            (omega (arith, length-drop n (contents rb), popped.count, not_zero more)) in
        let ih =
          drain_loop_lem fuel rb' batch' (foldl step acc (take n batch')) popped.valid
            (omega (arith, popped.room)) shorter in
        rw more (record {
          last = ih.last;
          result = ih.result ∙ ap (λ t. some (t, ih.last)) all;
          emptied = ih.emptied;
          valid = ih.valid;
        })
  ]
    where
      popped : Popped rb batch (pop_into rb batch)
      popped = pop_into-Popped rb batch v

      n : ℕ
      n = (pop_into rb batch).0

      batch' : List A
      batch' = (pop_into rb batch).1

      rb' : RingBuffer A
      rb' = (pop_into rb batch).2

      not_zero : (n == 0) ≡ false → 0 < n
      not_zero h = ground arith

      all :
          foldl step (foldl step acc (take n batch')) (contents rb') ≡ foldl step acc (contents rb)
      all =
          ap₂ (λ a b. foldl step (foldl step acc a) b) popped.front popped.rest
          ∙ (sym (foldl-append step acc (take n (contents rb)) (drop n (contents rb)))
              ∙ ap (foldl step acc) (take-append-drop n (contents rb)))
