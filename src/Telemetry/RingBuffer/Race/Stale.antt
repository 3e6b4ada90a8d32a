-- ===== src/Telemetry/RingBuffer/Race/Stale.antt =====
-- Two interleavings that `Push` and `PopInto` of internal/telemetry/ringbuffer.go allow.
use iicpc_distributed_benchm.Base.{
  ℕ, suc, ◌+◌, ◌%◌, ◌<◌, ◌≡◌, refl, ap, sym, subst, subst₂, ◌∙◌, if◌then◌else◌, List, [], ◌∷◌, true,
  false, some, get_elem?, set, leb, ltb, add64, sub64, u64_mod, arith, lt→leb_false, le→leb,
}
use iicpc_distributed_benchm.Telemetry.RingBuffer.{RingBuffer, copy_elem}
use iicpc_distributed_benchm.Telemetry.RingBuffer.Inv.{IsValid}
use iicpc_distributed_benchm.Telemetry.RingBuffer.Race.{
  Producer, idle, loaded_write, claimed, returned, Consumer, resting, popped, System, update,
  PushStep, PopStep, producer, consumer, Reach, here, next,
}

module _ {A : Type 0} where
  -- A state reached from `s`, known by its ring, its producers 0 and 1 and its consumer.
  record At (s : System A) (n : ℕ) (r : RingBuffer A) (p q : Producer A) (c : Consumer A)
      : Type 0 where
    state : System A
    reach : Reach s n state
    ring_eq : state.ring ≡ r
    first_eq : state.producer 0 ≡ p
    second_eq : state.producer 1 ≡ q
    consumer_eq : state.consumer ≡ c

  module _ {s : System A} {n : ℕ} {r r' : RingBuffer A} where
    first_step :
        {p p' q : Producer A} {c : Consumer A}
        → At s n r p q c
        → PushStep r p r' p'
        → At s (suc n) r' p' q c
    first_step {p' = p'} at step = record {
      state = record at.state { ring = r'; producer = update at.state.producer 0 p' };
      reach =
          next at.reach (
            producer 0
              (subst₂ (λ a b. PushStep a b r' p') (sym at.ring_eq) (sym at.first_eq) step));
      ring_eq = refl;
      first_eq = refl;
      second_eq = at.second_eq;
      consumer_eq = at.consumer_eq;
    }

    second_step :
        {p q q' : Producer A} {c : Consumer A}
        → At s n r p q c
        → PushStep r q r' q'
        → At s (suc n) r' p q' c
    second_step {q' = q'} at step = record {
      state = record at.state { ring = r'; producer = update at.state.producer 1 q' };
      reach = next at.reach (
          producer 1 (subst₂ (λ a b. PushStep a b r' q') (sym at.ring_eq) (sym at.second_eq) step));
      ring_eq = refl;
      first_eq = at.first_eq;
      second_eq = refl;
      consumer_eq = at.consumer_eq;
    }

    pop_step :
        {p q : Producer A} {c c' : Consumer A}
        → At s n r p q c
        → PopStep r c r' c'
        → At s (suc n) r' p q c'
    pop_step {c' = c'} at step = record {
      state = record at.state { ring = r'; consumer = c' };
      reach =
          next at.reach (
            consumer
              (subst₂ (λ a b. PopStep a b r' c') (sym at.ring_eq) (sym at.consumer_eq) step));
      ring_eq = refl;
      first_eq = at.first_eq;
      second_eq = at.second_eq;
      consumer_eq = refl;
    }

  -- A buffer between calls, with nothing stored and the goroutines outside their calls.
  pub record AtRest (s : System A) : Type 0 where
    pub valid : IsValid s.ring
    pub room : s.ring.write + 1 < u64_mod
    pub nothing_stored : s.ring.read ≡ s.ring.write
    pub first_idle : s.producer 0 ≡ idle
    pub second_idle : s.producer 1 ≡ idle
    pub consumer_rests : s.consumer ≡ resting

  module _ {s : System A} (rest : AtRest s) (m : A) where
    start : At s 0 s.ring idle idle resting
    start = record {
      state = s;
      reach = here;
      ring_eq = refl;
      first_eq = rest.first_idle;
      second_eq = rest.second_idle;
      consumer_eq = rest.consumer_rests;
    }

    abbrev claimed_ring : RingBuffer A
    claimed_ring = record s.ring { write = add64 s.ring.write 1 }

    has_room : leb s.ring.size (sub64 s.ring.write s.ring.read) ≡ false
    has_room = let v = rest.valid in lt→leb_false _ _ (omega (arith, rest.nothing_stored))

    -- Producer 0 up to its claim, not yet stored.
    claim : At s 4 claimed_ring (claimed m s.ring.write) idle resting
    claim =
        first_step
          (first_step (first_step (first_step start (PushStep.call m)) PushStep.load_write)
            PushStep.load_read)
          (PushStep.cas_win has_room refl)

  -- The ring with one more push counted, then with one more pop counted.
  abbrev filled : RingBuffer A → List A → RingBuffer A
  filled r buf = record r { buf = buf; write = add64 r.write 1 }

  abbrev drained : RingBuffer A → List A → RingBuffer A
  drained r buf = record (filled r buf) { read = add64 r.read 1 }

  -- The consumer takes the one element that has been claimed.
  pop_one :
      {s : System A} (rest : AtRest s) (buf : List A) (d : A) {p q : Producer A} {n : ℕ}
      → At s n (filled s.ring buf) p q resting
      → At s
          (suc (suc (suc (suc (suc n)))))
          (drained s.ring buf)
          p
          q
          (popped 1 (copy_elem buf (add64 s.ring.read 0 % s.ring.size) (d ∷ []) 0))
  pop_one {s} rest buf d at =
      pop_step
        (pop_step
          (pop_step (pop_step (pop_step at (PopStep.call (d ∷ []))) PopStep.load_read)
            (PopStep.begin some_left (one some_left)))
          (PopStep.copy (omega arith)))
        (PopStep.finish refl)
    where
      valid : IsValid s.ring
      valid = rest.valid

      some_left : leb (add64 s.ring.write 1) s.ring.read ≡ false
      some_left = lt→leb_false _ _ (omega (arith, rest.room))

      one :
          leb (add64 s.ring.write 1) s.ring.read ≡ false
          → 1 ≡ (
              let avail = sub64 (add64 s.ring.write 1) s.ring.read in
              if ltb avail 1 then avail else 1)
      one h = ground (arith, rest.room, rest.nothing_stored)

  empty_again :
      {s : System A} (rest : AtRest s) (buf : List A) (t : System A)
      → t.ring ≡ drained s.ring buf
      → t.ring.read ≡ t.ring.write
  empty_again rest buf t e =
      subst (λ r. r.read ≡ r.write) (sym e) (ap (λ k. add64 k 1) rest.nothing_stored)

  copied :
      (buf : List A) (j : ℕ) {x : A} (d : A) {i : ℕ}
      → get_elem? buf i ≡ some x
      → j ≡ i
      → copy_elem buf j (d ∷ []) 0 ≡ x ∷ []
  copied buf j d slot e = rw (e, slot, copy_elem)

  -- From any buffer at rest with nothing stored there is an interleaving of one `Push(m)` and one
  -- `PopInto` in which `PopInto` returns one element, namely what the slot held before, while
  -- `Push(m)` has claimed that slot and not yet stored `m`; and the buffer counts as empty again.
  pub pop_before_store :
      {s : System A} (m x d : A)
      → AtRest s
      → get_elem? s.ring.buf (s.ring.write % s.ring.size) ≡ some x
      → (t : System A) × Reach s 9 t
        × (t.consumer ≡ popped 1 (x ∷ []))
        × (t.producer 0 ≡ claimed m s.ring.write)
        × (t.ring.read ≡ t.ring.write)
  pop_before_store {s} m x d rest slot =
      let at = pop_one rest s.ring.buf d (claim rest m) in
      (
        at.state,
        at.reach,
        at.consumer_eq ∙ ap (popped 1) (copied s.ring.buf _ d slot same_slot),
        at.first_eq,
        empty_again rest s.ring.buf at.state at.ring_eq,
      )
    where
      valid : IsValid s.ring
      valid = rest.valid

      same_slot : add64 s.ring.read 0 % s.ring.size ≡ s.ring.write % s.ring.size
      same_slot = ap (λ k. k % s.ring.size) (omega (arith, rest.nothing_stored))

  -- From any buffer at rest with nothing stored, whose size is a `uint64`, there is an interleaving
  -- of two `Push` calls and one `PopInto` that ends with an empty buffer and in which one `Push`
  -- succeeds and the other reports a full buffer.
  pub push_fails_on_empty :
      {s : System A} (m m' : A)
      → AtRest s
      → s.ring.size < u64_mod
      → (n : ℕ) × (t : System A) × Reach s n t
        × (t.producer 0 ≡ returned false)
        × (t.producer 1 ≡ returned true)
        × (t.ring.read ≡ t.ring.write)
  push_fails_on_empty {s} m m' rest small = (
    _,
    last.state,
    last.reach,
    last.first_eq,
    last.second_eq,
    empty_again rest stored last.state last.ring_eq,
  )
    where
      stored : List A
      stored = set s.ring.buf (s.ring.write % s.ring.size) m'

      valid : IsValid s.ring
      valid = rest.valid

      other_pushed :
          At s 7 (filled s.ring stored) (loaded_write m s.ring.write) (returned true) resting
      other_pushed =
          second_step
            (second_step
              (second_step
                (second_step
                  (second_step
                    (first_step (first_step (start rest m) (PushStep.call m)) PushStep.load_write)
                    (PushStep.call m'))
                  PushStep.load_write)
                PushStep.load_read)
              (PushStep.cas_win (has_room rest m) refl))
            PushStep.store

      last :
          At s 14
            (drained s.ring stored)
            (returned false)
            (returned true)
            (popped 1 (copy_elem stored (add64 s.ring.read 0 % s.ring.size) (m' ∷ []) 0))
      last =
          first_step (first_step (pop_one rest stored m' other_pushed) PushStep.load_read)
            (PushStep.report_full (le→leb _ _ (omega (arith, rest.room, rest.nothing_stored))))
