-- ===== src/Telemetry/RingBuffer/Race/Inv.antt =====
-- What holds in every state that concurrent calls reach in fewer than 2^64 steps.
use iicpc_distributed_benchm.Base.{
  ℕ, suc, ◌+◌, ◌%◌, ◌≤◌, ◌<◌, ◌≡◌, ◌==◌, Bool-cases, inl, inr, subst, List, length, length-set,
  u64_mod, arith,
}
use iicpc_distributed_benchm.Telemetry.RingBuffer.{RingBuffer, new_ring_buffer}
use iicpc_distributed_benchm.Telemetry.RingBuffer.Inv.{new_ring_buffer-IsValid}
use iicpc_distributed_benchm.Telemetry.RingBuffer.Race.{
  Producer, idle, retry, loaded_write, loaded_read, claimed, returned, Consumer, resting, started,
  seen_read, copying, popped, System, update, init, PushStep, PopStep, Step, producer, consumer,
  Reach, here, next,
}

module _ {A : Type 0} where
  -- What the locals of a producer say about the counters.
  abbrev pub Knows : RingBuffer A → Producer A → Type 0
  Knows r (loaded_write m w) = w ≤ r.write
  Knows r (loaded_read m w rd) = (w ≤ r.write) × (rd ≤ r.read)
  Knows r (claimed m w) = w < r.write
  Knows r _ = Unit

  -- What the locals of the consumer say about the counters.
  abbrev pub Sees : RingBuffer A → Consumer A → Type 0
  Sees r (seen_read dst rd) = rd ≡ r.read
  Sees r (copying dst rd n i) = (rd ≡ r.read) × (rd + n ≤ r.write) × (i ≤ n)
  Sees r _ = Unit

  pub record Inv (n : ℕ) (s : System A) : Type 0 where
    pub storage : length s.ring.buf ≡ s.ring.size
    pub positive : 0 < s.ring.size
    pub counted : s.ring.write ≤ n
    pub ordered : s.ring.read ≤ s.ring.write
    pub fits : s.ring.write ≤ s.ring.read + s.ring.size
    pub sees : Sees s.ring s.consumer
    pub knows : (i : ℕ) → Knows s.ring (s.producer i)
    pub unique :
        (i j w : ℕ) (m m' : A) → s.producer i ≡ claimed m w → s.producer j ≡ claimed m' w → i ≡ j

  Inv-init : (blank : A) (size : ℕ) → Inv 0 (init blank size)
  unfolding new_ring_buffer
  Inv-init blank size =
      let (v, e) = new_ring_buffer-IsValid blank size in
      record {
        storage = v.storage;
        positive = v.positive;
        counted = omega arith;
        ordered = omega arith;
        fits = v.fits;
        sees = tt;
        knows = λ i. tt;
        unique = λ i j w m m' p q. cc;
      }

  -- The part of the invariant that speaks of the ring alone.
  record Sound (n : ℕ) (r : RingBuffer A) : Type 0 where
    storage : length r.buf ≡ r.size
    positive : 0 < r.size
    counted : r.write ≤ n
    ordered : r.read ≤ r.write
    fits : r.write ≤ r.read + r.size

  Inv-Sound : {n : ℕ} {s : System A} → Inv n s → Sound n s.ring
  Inv-Sound inv = record {
    storage = inv.storage;
    positive = inv.positive;
    counted = inv.counted;
    ordered = inv.ordered;
    fits = inv.fits;
  }

  -- Counters only grow, and a producer leaves `read` alone.
  record Grows (r r' : RingBuffer A) : Type 0 where
    write_le : r.write ≤ r'.write
    read_le : r.read ≤ r'.read

  PushStep-Sound :
      {n : ℕ} {r r' : RingBuffer A} {p p' : Producer A}
      → PushStep r p r' p'
      → suc n < u64_mod
      → Sound n r
      → Knows r p
      → Sound (suc n) r' × Grows r r' × (r'.read ≡ r.read) × Knows r' p'
  PushStep-Sound {r = r} (PushStep.store {m} {w}) room s k =
      ground (arith, length-set r.buf (w % r.size) m)
  PushStep-Sound {r = r} (PushStep.cas_win free same) room s k = ground arith
  PushStep-Sound {r = r} step room s k = ground arith

  Knows-Grows : {r r' : RingBuffer A} (p : Producer A) → Grows r r' → Knows r p → Knows r' p
  Knows-Grows idle g k = tt
  Knows-Grows (retry m) g k = tt
  Knows-Grows (loaded_write m w) g k = omega arith
  Knows-Grows (loaded_read m w rd) g k = omega arith
  Knows-Grows (claimed m w) g k = omega arith
  Knows-Grows (returned b) g k = tt

  Sees-Grows :
      {r r' : RingBuffer A} (c : Consumer A) → Grows r r' → r'.read ≡ r.read → Sees r c → Sees r' c
  Sees-Grows resting g e k = tt
  Sees-Grows (started dst) g e k = tt
  Sees-Grows (seen_read dst rd) g e k = omega arith
  Sees-Grows (copying dst rd n i) g e k = omega arith
  Sees-Grows (popped n dst) g e k = tt

  PopStep-Sound :
      {n : ℕ} {r r' : RingBuffer A} {c c' : Consumer A}
      → PopStep r c r' c'
      → suc n < u64_mod
      → Sound n r
      → Sees r c
      → Sound (suc n) r' × Grows r r' × Sees r' c'
  PopStep-Sound (PopStep.begin some_left count) room s k = ground arith
  PopStep-Sound (PopStep.copy more) room s k = ground arith
  PopStep-Sound (PopStep.finish last) room s k = ground arith
  PopStep-Sound step room s k = ground arith

  -- A counter is claimed by the exchange that found it in `write`.
  PushStep-claims :
      {r r' : RingBuffer A} {p p' : Producer A}
      → PushStep r p r' p'
      → (w : ℕ) (m : A) → p' ≡ claimed m w
      → w ≡ r.write
  PushStep-claims (PushStep.cas_win free same) w m e = ground arith
  PushStep-claims step w m e = ground arith

  claimed-lt :
      (r : RingBuffer A) {p : Producer A} (w : ℕ) (m : A)
      → Knows r p
      → p ≡ claimed m w
      → w < r.write
  claimed-lt r w m k e = subst (Knows r) e k

  module _ {n : ℕ} (i : ℕ) {s : System A} {r : RingBuffer A} {p : Producer A}
      (step : PushStep s.ring (s.producer i) r p) (room : suc n < u64_mod) (inv : Inv n s) where
    push_facts : Sound (suc n) r × Grows s.ring r × (r.read ≡ s.ring.read) × Knows r p
    push_facts = PushStep-Sound step room (Inv-Sound inv) (inv.knows i)

    update-Knows : (j : ℕ) → Knows r (update s.producer i p j)
    update-Knows j = elim (Bool-cases (i == j)) [
      | inl same ↦ rw same push_facts.3
      | inr other ↦ rw other (Knows-Grows (s.producer j) push_facts.1 (inv.knows j))
    ]

    update_unique :
        (a b w : ℕ) (m m' : A)
        → update s.producer i p a ≡ claimed m w
        → update s.producer i p b ≡ claimed m' w
        → a ≡ b
    update_unique a b w m m' e e' = ground (
      arith,
      inv.unique a b w m m',
      PushStep-claims step w m,
      PushStep-claims step w m',
      claimed-lt s.ring {p = s.producer a} w m (inv.knows a),
      claimed-lt s.ring {p = s.producer b} w m' (inv.knows b),
    )

    push-Inv : Inv (suc n) (record s { ring = r; producer = update s.producer i p })
    push-Inv =
        let (sound, grows, kept, _) = push_facts in
        record {
          storage = sound.storage;
          positive = sound.positive;
          counted = sound.counted;
          ordered = sound.ordered;
          fits = sound.fits;
          sees = Sees-Grows s.consumer grows kept inv.sees;
          knows = update-Knows;
          unique = update_unique;
        }

  Step-Inv : {n : ℕ} {s t : System A} → Step s t → suc n < u64_mod → Inv n s → Inv (suc n) t
  Step-Inv (producer i step) room inv = push-Inv i step room inv
  Step-Inv {s = s} (consumer step) room inv =
      let (sound, grows, sees) = PopStep-Sound step room (Inv-Sound inv) inv.sees in
      record {
        storage = sound.storage;
        positive = sound.positive;
        counted = sound.counted;
        ordered = sound.ordered;
        fits = sound.fits;
        sees = sees;
        knows = λ j. Knows-Grows (s.producer j) grows (inv.knows j);
        unique = inv.unique;
      }

  pub Reach-Inv :
      (blank : A) (size : ℕ) {n : ℕ} {s : System A}
      → Reach (init blank size) n s
      → n < u64_mod
      → Inv n s
  Reach-Inv blank size here room = Inv-init blank size
  Reach-Inv blank size (next reach step) room =
      Step-Inv step room (Reach-Inv blank size reach (omega arith))

  -- In every state that fewer than 2^64 steps of concurrent `Push` calls and one consumer reach from
  -- a new buffer: the consumer has not passed the producers, no more than `size` elements lie
  -- between them, and while the consumer copies, all that it copies has been claimed.
  pub capacity_kept :
      (blank : A) (size : ℕ) {n : ℕ} {s : System A}
      → Reach (init blank size) n s
      → n < u64_mod
      → (s.ring.read ≤ s.ring.write)
        × (s.ring.write ≤ s.ring.read + s.ring.size)
        × ((dst : List A) (rd k i : ℕ)
            → s.consumer ≡ copying dst rd k i
            → (rd ≡ s.ring.read) × (rd + k ≤ s.ring.write))
  capacity_kept blank size {s = s} reach room =
      let inv = Reach-Inv blank size reach room in
      (
        inv.ordered,
        inv.fits,
        λ dst rd k i e. let seen = subst (Sees s.ring) e inv.sees in (seen.0, seen.1),
      )

  -- In every state that fewer than 2^64 steps of concurrent `Push` calls and one consumer reach from a
  -- new buffer, no two producers hold a claim to the same counter, so each exchange that
  -- succeeds has a counter of its own.
  pub claims_distinct :
      (blank : A) (size : ℕ) {n : ℕ} {s : System A}
      → Reach (init blank size) n s
      → n < u64_mod
      → (i j w : ℕ) (m m' : A) → s.producer i ≡ claimed m w
      → s.producer j ≡ claimed m' w
      → i ≡ j
  claims_distinct blank size reach room = (Reach-Inv blank size reach room).unique
