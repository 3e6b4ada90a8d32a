-- ===== src/Telemetry/RingBuffer/Race.antt =====
-- internal/telemetry/ringbuffer.go with many goroutines in `Push` and one in `PopInto`, one atomic
-- access (or one copied element) at a time, interleaved in any order.
pub mod Inv
pub mod Stale
use iicpc_distributed_benchm.Base.{
  ℕ, ◌+◌, ◌%◌, ◌<◌, ◌≡◌, ◌≢◌, ◌==◌, Bool, true, false, List, leb, ltb, if◌then◌else◌, suc, length,
  set, add64, sub64,
}
use iicpc_distributed_benchm.Telemetry.RingBuffer.{RingBuffer, new_ring_buffer, copy_elem}

-- Where a goroutine stands in `Push`, with the local variables that are live there.
pub data Producer (A : Type 0) : Type 0 where
  idle : Producer A  -- outside `Push`
  retry : (m : A) → Producer A  -- at the head of the loop
  loaded_write : (m : A) (w : ℕ) → Producer A
  loaded_read : (m : A) (w rd : ℕ) → Producer A
  claimed : (m : A) (w : ℕ) → Producer A  -- after the exchange, before the store into `buf`
  returned : Bool → Producer A

-- Where the consumer stands in `PopInto`.
pub data Consumer (A : Type 0) : Type 0 where
  resting : Consumer A
  started : (dst : List A) → Consumer A
  seen_read : (dst : List A) (rd : ℕ) → Consumer A
  copying : (dst : List A) (rd n i : ℕ) → Consumer A
  popped : (n : ℕ) (dst : List A) → Consumer A

pub record System (A : Type 0) : Type 0 where
  pub ring : RingBuffer A
  pub producer : ℕ → Producer A
  pub consumer : Consumer A

module _ {A : Type 0} where
  abbrev pub update : (ℕ → Producer A) → ℕ → Producer A → ℕ → Producer A
  update f i p j = if i == j then p else f j

  abbrev pub init : A → ℕ → System A
  init blank size = record {
    ring = new_ring_buffer blank size;
    producer = λ _. idle;
    consumer = resting;
  }

-- One step inside `Push`, of the ring and of one producer.
pub data PushStep {A : Type 0} (r : RingBuffer A)
    : Producer A → RingBuffer A → Producer A → Type 0 where
  call : (m : A) → PushStep r idle r (retry m)
  again : (b : Bool) → PushStep r (returned b) r idle
  load_write : {m : A} → PushStep r (retry m) r (loaded_write m r.write)
  load_read : {m : A} {w : ℕ} → PushStep r (loaded_write m w) r (loaded_read m w r.read)
  report_full :
      {m : A} {w rd : ℕ}
      → leb r.size (sub64 w rd) ≡ true
      → PushStep r (loaded_read m w rd) r (returned false)
  cas_win :
      {m : A} {w rd : ℕ}
      → leb r.size (sub64 w rd) ≡ false
      → r.write ≡ w
      → PushStep r (loaded_read m w rd) (record r { write = add64 w 1 }) (claimed m w)
  cas_lose :
      {m : A} {w rd : ℕ}
      → leb r.size (sub64 w rd) ≡ false
      → r.write ≢ w
      → PushStep r (loaded_read m w rd) r (retry m)
  store :
      {m : A} {w : ℕ}
      → PushStep r (claimed m w) (record r { buf = set r.buf (w % r.size) m }) (returned true)

-- One step inside `PopInto`.
pub data PopStep {A : Type 0} (r : RingBuffer A)
    : Consumer A → RingBuffer A → Consumer A → Type 0 where
  call : (dst : List A) → PopStep r resting r (started dst)
  again : {n : ℕ} {dst : List A} → PopStep r (popped n dst) r resting
  load_read : {dst : List A} → PopStep r (started dst) r (seen_read dst r.read)
  nothing :
      {dst : List A} {rd : ℕ}
      → leb r.write rd ≡ true
      → PopStep r (seen_read dst rd) r (popped 0 dst)
  begin :
      {dst : List A} {rd n : ℕ}
      → leb r.write rd ≡ false
      → n ≡ (let avail = sub64 r.write rd in if ltb avail (length dst) then avail else length dst)
      → PopStep r (seen_read dst rd) r (copying dst rd n 0)
  copy :
      {dst : List A} {rd n i : ℕ}
      → i < n
      → PopStep r
          (copying dst rd n i)
          r
          (copying (copy_elem r.buf (add64 rd i % r.size) dst i) rd n (i + 1))
  finish :
      {dst : List A} {rd n i : ℕ}
      → i ≡ n
      → PopStep r (copying dst rd n i) (record r { read = add64 rd n }) (popped n dst)

pub data Step {A : Type 0} (s : System A) : System A → Type 0 where
  producer :
      (i : ℕ) {r : RingBuffer A} {p : Producer A}
      → PushStep s.ring (s.producer i) r p
      → Step s (record s { ring = r; producer = update s.producer i p })
  consumer :
      {r : RingBuffer A} {c : Consumer A}
      → PopStep s.ring s.consumer r c
      → Step s (record s { ring = r; consumer = c })

-- Reached from `s` in so many steps.
pub data Reach {A : Type 0} (s : System A) : ℕ → System A → Type 0 where
  here : Reach s 0 s
  next : {n : ℕ} {t u : System A} → Reach s n t → Step t u → Reach s (suc n) u
