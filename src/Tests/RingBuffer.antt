-- ===== src/Tests/RingBuffer.antt =====
-- Runs of the ring buffer.
use iicpc_distributed_benchm.Base.{
  ℕ, ◌+◌, ◌%◌, ◌≤◌, ◌<◌, ◌≡◌, refl, max, List, [], ◌∷◌, true, false, get_elem?, some, arith,
  u64_mod, add64,
}
use iicpc_distributed_benchm.Telemetry.RingBuffer.{new_ring_buffer}
use iicpc_distributed_benchm.Telemetry.RingBuffer.Inv.{new_ring_buffer-IsValid}
use iicpc_distributed_benchm.Telemetry.RingBuffer.Run.{
  Call, put, take_into, run, run_queue, run_refines,
}
use iicpc_distributed_benchm.Telemetry.RingBuffer.Race.{
  claimed, returned, popped, copying, retry, loaded_write, loaded_read, update, System, init,
  PushStep, producer, Reach, here, next,
}
use iicpc_distributed_benchm.Telemetry.RingBuffer.Race.Inv.{capacity_kept, claims_distinct}
use iicpc_distributed_benchm.Telemetry.RingBuffer.Race.Stale.{
  AtRest, pop_before_store, push_fails_on_empty,
}

-- Three pushes into two slots, and a pop.
abbrev calls : List (Call ℕ)
calls = put 5 ∷ put 6 ∷ put 7 ∷ take_into (0 ∷ 0 ∷ 0 ∷ []) ∷ put 8 ∷ []

run_refines_example : run (new_ring_buffer 0 2) calls ≡ run_queue (max 1 2) [] calls
run_refines_example = run_refines 0 2 calls (omega arith)

abbrev start : System ℕ
start = init 0 4

-- Producer 0 has claimed the first slot for 7.
abbrev after_claim : System ℕ
after_claim = record start {
  ring = record start.ring { write = add64 start.ring.write 1 };
  producer =
      update
        (update (update (update start.producer 0 (retry 7)) 0 (loaded_write 7 start.ring.write)) 0
          (loaded_read 7 start.ring.write start.ring.read))
        0 (claimed 7 start.ring.write);
}

claim_reached : Reach start 4 after_claim
unfolding new_ring_buffer
claim_reached =
    next
      (next (next (next here (producer 0 (PushStep.call 7))) (producer 0 PushStep.load_write))
        (producer 0 PushStep.load_read))
      (producer 0 (PushStep.cas_win (ground arith) refl))

capacity_kept_example :
    (after_claim.ring.read ≤ after_claim.ring.write)
    × (after_claim.ring.write ≤ after_claim.ring.read + after_claim.ring.size)
    × ((dst : List ℕ) (rd k i : ℕ)
        → after_claim.consumer ≡ copying dst rd k i
        → (rd ≡ after_claim.ring.read) × (rd + k ≤ after_claim.ring.write))
capacity_kept_example = capacity_kept 0 4 claim_reached (omega arith)

abbrev first : ℕ
first = 0

claims_distinct_example : first ≡ first
claims_distinct_example =
    claims_distinct 0 4 claim_reached (omega arith) 0 0 start.ring.write 7 7 refl refl

start-AtRest : AtRest start
unfolding new_ring_buffer
start-AtRest = record {
  valid = (new_ring_buffer-IsValid 0 4).0;
  room = omega arith;
  nothing_stored = refl;
  first_idle = refl;
  second_idle = refl;
  consumer_rests = refl;
}

first_slot : get_elem? start.ring.buf (start.ring.write % start.ring.size) ≡ some 0
unfolding new_ring_buffer
first_slot = refl

pop_before_store_example :
    (t : System ℕ) × Reach start 9 t
    × (t.consumer ≡ popped 1 (0 ∷ []))
    × (t.producer 0 ≡ claimed 7 start.ring.write)
    × (t.ring.read ≡ t.ring.write)
pop_before_store_example = pop_before_store 7 0 0 start-AtRest first_slot

start-small : start.ring.size < u64_mod
unfolding new_ring_buffer
start-small = omega arith

push_fails_on_empty_example :
    (n : ℕ) × (t : System ℕ) × Reach start n t
    × (t.producer 0 ≡ returned false)
    × (t.producer 1 ≡ returned true)
    × (t.ring.read ≡ t.ring.write)
push_fails_on_empty_example = push_fails_on_empty 7 8 start-AtRest start-small
