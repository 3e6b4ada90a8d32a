-- ===== src/BotFleet/Once.antt =====
-- Each order that a bot sends is measured at most once, and nothing else is.
use iicpc_distributed_benchm.Base.{
  ℕ, ◌+◌, ◌≤◌, ◌<◌, ◌≡◌, ◌≢◌, ◌↔◌, sym, subst, ◌∙◌, Bool, true, inl, inr, List, [], ◌∷◌, ◌++◌, none,
  some, Option-cases, Assoc, Text, text_eq_iff, text_eq_refl, arith, decimal, decimal-injective,
  All, All-append, All-map, All-map₂, ◌⊎◌, lookup, insert, remove, lookup-insert, lookup-remove,
  lookup-nil, length, u64_mod, add64,
}
use iicpc_distributed_benchm.Float.{Float64}
use iicpc_distributed_benchm.Trading.{OrderResponse}
use iicpc_distributed_benchm.Telemetry.{Metric}
use iicpc_distributed_benchm.BotFleet.{
  Config, Draws, PendingEntry, order_id, build_order, wrong_status, Bot, new_bot, on_tick,
  on_send_failure, on_response, record_response, metric_of, Event, tick, send_failed, response,
  handle, run_bot,
}

append-cancel : (xs : Text) {a b : Text} → xs ++ a ≡ xs ++ b → a ≡ b
append-cancel [] e = e
append-cancel (x ∷ xs) e = append-cancel xs (cc)

pub order_id-injective : (bot_id : Text) (a b : ℕ) → order_id bot_id a ≡ order_id bot_id b → a ≡ b
unfolding order_id
order_id-injective bot_id a b e =
    let same : (b'-' ∷ decimal a) ≡ (b'-' ∷ decimal b) = append-cancel bot_id e in
    decimal-injective a b (cc)

abbrev pub DistinctIds : List Metric → Type 0
DistinctIds [] = Unit
DistinctIds (m ∷ ms) = All (λ x. m.order_id ≢ x.order_id) ms × DistinctIds ms

DistinctIds-append :
    (ms : List Metric) (m : Metric)
    → DistinctIds ms
    → All (λ x. x.order_id ≢ m.order_id) ms
    → DistinctIds (ms ++ m ∷ [])
DistinctIds-append [] m d h = (tt, tt)
DistinctIds-append (x ∷ ms) m d h =
    (All-append _ ms (m ∷ []) d.0 (h.0, tt), DistinctIds-append ms m d.1 h.1)

module _ (pending : Assoc PendingEntry) (k j : Text) where
  insert-some :
      (e : PendingEntry) {x : PendingEntry}
      → lookup j (insert k e pending) ≡ some x
      → (j ≡ k) ⊎ (lookup j pending ≡ some x)
  insert-some e h = ground (arith, lookup-insert k j e pending, text_eq_iff k j)

  insert-none :
      (e : PendingEntry) → k ≢ j → lookup j pending ≡ none → lookup j (insert k e pending) ≡ none
  insert-none e ne h = ground (arith, lookup-insert k j e pending, text_eq_iff k j)

  remove-some :
      {x : PendingEntry} → lookup j (remove k pending) ≡ some x → lookup j pending ≡ some x
  remove-some h = ground (arith, lookup-remove k j pending)

  remove-none : lookup j pending ≡ none → lookup j (remove k pending) ≡ none
  remove-none h = ground (arith, lookup-remove k j pending)

module _ (f : Float64) (cfg : Config) (bot_id : Text) where
  -- The text is the id of an order that the bot has built.
  abbrev pub IsSent : ℕ → Text → Type 0
  IsSent seq id = (k : ℕ) × (k ≤ seq) × (id ≡ order_id bot_id k)

  -- A metric of an order that was sent; it has an error code exactly if it is not correct.
  pub record IsMeasured (seq : ℕ) (m : Metric) : Type 0 where
    pub sent : IsSent seq m.order_id
    pub flagged : (m.is_correct ≡ true) ↔ (m.error_code ≡ [])

  record Inv (n : ℕ) (b : Bot f) : Type 0 where
    counted : b.seq ≤ n
    pending_sent : (id : Text) (e : PendingEntry) → lookup id b.pending ≡ some e → IsSent b.seq id
    measured : All (IsMeasured b.seq) b.metrics
    settled : All (λ m. lookup m.order_id b.pending ≡ none) b.metrics
    distinct : DistinctIds b.metrics

  IsSent-mono : (a b : ℕ) {id : Text} → a ≤ b → IsSent a id → IsSent b id
  IsSent-mono a b h (k, le, e) = (k, omega arith, e)

  IsMeasured-mono : (a b : ℕ) {m : Metric} → a ≤ b → IsMeasured a m → IsMeasured b m
  IsMeasured-mono a b h s = record { sent = IsSent-mono a b h s.sent; flagged = s.flagged }

  -- A tick: the new id is none of those before.
  tick_step :
      (n : ℕ) (b : Bot f) (entry : PendingEntry)
      → n + 1 < u64_mod
      → Inv n b
      → Inv (n + 1) (record b {
        seq = add64 b.seq 1;
        pending = insert (order_id bot_id (add64 b.seq 1)) entry b.pending;
      })
  tick_step n b entry room inv = record {
    counted = omega (arith, inv.counted);
    pending_sent = λ id e h. built id (insert-some b.pending (order_id bot_id seq) id entry h);
    measured = All-map _ _ b.metrics (λ m s. IsMeasured-mono b.seq seq grows s) inv.measured;
    settled = All-map₂ _ _ _ b.metrics still inv.measured inv.settled;
    distinct = inv.distinct;
  }
    where
      seq : ℕ
      seq = add64 b.seq 1

      exact : seq ≡ b.seq + 1
      exact = omega (arith, inv.counted)

      grows : b.seq ≤ seq
      grows = omega (arith, inv.counted)

      built :
          (id : Text) {e : PendingEntry}
          → (id ≡ order_id bot_id seq) ⊎ (lookup id b.pending ≡ some e)
          → IsSent seq id
      built id (inl e) = (seq, omega arith, e)
      built id (inr h) = IsSent-mono b.seq seq grows (inv.pending_sent id _ h)

      still :
          (m : Metric)
          → IsMeasured b.seq m
          → lookup m.order_id b.pending ≡ none
          → lookup m.order_id (insert (order_id bot_id seq) entry b.pending) ≡ none
      still m s h =
          let (k, le, same) = s.sent in
          insert-none b.pending (order_id bot_id seq) m.order_id entry
            (λ e. absurd (omega (arith, exact, order_id-injective bot_id seq k (e ∙ same)))) h

  remove_step :
      (n : ℕ) (b : Bot f) (id : Text) → Inv n b → Inv (n + 1) (on_send_failure f cfg bot_id b id)
  unfolding on_send_failure
  remove_step n b id inv = record {
    counted = omega (arith, inv.counted);
    pending_sent = λ j e h. inv.pending_sent j e (remove-some b.pending id j h);
    measured = inv.measured;
    settled = All-map _ _ b.metrics (λ m h. remove-none b.pending id m.order_id h) inv.settled;
    distinct = inv.distinct;
  }

  wrong_status_flag : (ok : Bool) (status : Text) → (ok ≡ true) ↔ (wrong_status ok status ≡ [])
  wrong_status_flag ok status = ground arith

  remove_self : (pending : Assoc PendingEntry) (id : Text) → lookup id (remove id pending) ≡ none
  remove_self pending id = rw (lookup-remove, text_eq_refl)

  -- A response to a pending order: its metric joins those of other orders.
  measure_step :
      (n : ℕ) (b : Bot f) (resp : OrderResponse f) (recv_ns : ℕ) (entry : PendingEntry)
      → lookup resp.order_id b.pending ≡ some entry
      → Inv n b
      → Inv (n + 1) (record_response f cfg bot_id b resp recv_ns (some entry))
  measure_step n b resp recv_ns entry found inv = record {
    counted = omega (arith, inv.counted);
    pending_sent = λ j e h. inv.pending_sent j e (remove-some b.pending resp.order_id j h);
    measured = All-append _ b.metrics (metric ∷ []) inv.measured (
      record {
        sent = inv.pending_sent resp.order_id entry found;
        flagged = wrong_status_flag metric.is_correct resp.status;
      },
      tt,
    );
    settled =
        All-append _ b.metrics (metric ∷ [])
          (All-map _ _ b.metrics (λ m h. remove-none b.pending resp.order_id m.order_id h)
            inv.settled)
          (remove_self b.pending resp.order_id, tt);
    distinct =
        DistinctIds-append b.metrics metric inv.distinct
          (All-map _ _ b.metrics (λ m h. other m h) inv.settled);
  }
    where
      metric : Metric
      metric = metric_of f cfg bot_id entry resp recv_ns

      other : (m : Metric) → lookup m.order_id b.pending ≡ none → m.order_id ≢ resp.order_id
      other m h e = cc

  response_step :
      (n : ℕ) (b : Bot f) (resp : OrderResponse f) (recv_ns : ℕ)
      → Inv n b
      → Inv (n + 1) (on_response f cfg bot_id b resp recv_ns)
  unfolding on_response
  response_step n b resp recv_ns inv = elim (Option-cases (lookup resp.order_id b.pending)) [
    | inl unknown ↦
        rw (unknown, on_response)
          (record {
            counted = omega (arith, inv.counted);
            pending_sent = inv.pending_sent;
            measured = inv.measured;
            settled = inv.settled;
            distinct = inv.distinct;
          })
    | inr (entry, found) ↦ rw (found, on_response) (measure_step n b resp recv_ns entry found inv)
  ]

  order_id-build_order :
      (seq : ℕ) (symbol : Text) (draws : Draws f) (now : ℕ)
      → (build_order f bot_id seq symbol draws now).0.order_id ≡ order_id bot_id seq
  unfolding build_order
  order_id-build_order seq symbol draws now = ground arith

  handle-Inv :
      (n : ℕ) (b : Bot f) (e : Event f)
      → n + 1 < u64_mod
      → Inv n b
      → Inv (n + 1) (handle f cfg bot_id b e)
  unfolding handle on_tick
  handle-Inv n b (tick draws now sent_ns) room inv =
      let (req, is_cancel) = build_order f bot_id (add64 b.seq 1) cfg.symbol draws now in
      let entry : PendingEntry = record {
        order_id = req.order_id;
        sent_ns = sent_ns;
        is_cancel = is_cancel;
      } in
      subst
        (λ id. Inv (n + 1) (record b { seq = add64 b.seq 1; pending = insert id entry b.pending }))
        (sym (order_id-build_order (add64 b.seq 1) cfg.symbol draws now))
        (tick_step n b entry room inv)
  handle-Inv n b (send_failed id) room inv = remove_step n b id inv
  handle-Inv n b (response resp recv_ns) room inv = response_step n b resp recv_ns inv

  run_bot-Inv :
      (n : ℕ) (b : Bot f) (es : List (Event f))
      → n + length es < u64_mod
      → Inv n b
      → (k : ℕ) × Inv k (run_bot f cfg bot_id b es)
  unfolding run_bot
  run_bot-Inv n b [] room inv = (n, inv)
  run_bot-Inv n b (e ∷ es) room inv =
      run_bot-Inv (n + 1) (handle f cfg bot_id b e) es (omega arith)
        (handle-Inv n b e (omega arith) inv)

  new_bot-Inv : Inv 0 (new_bot f)
  new_bot-Inv = record {
    counted = omega arith;
    pending_sent = λ id e h. cc (lookup-nil {V = PendingEntry} id);
    measured = tt;
    settled = tt;
    distinct = tt;
  }

  -- Whatever a bot's ticker, its stream and its engine do, in any order and for fewer than 2^64
  -- events: no two of the metrics that it records have the same order id; each is of an order that
  -- this bot built; and it has an error code exactly if it is not counted as correct.
  pub metrics_once :
      (es : List (Event f))
      → length es < u64_mod
      → let b = run_bot f cfg bot_id (new_bot f) es in
        DistinctIds b.metrics × All (IsMeasured b.seq) b.metrics
  metrics_once es room =
      let (k, inv) = run_bot-Inv 0 (new_bot f) es (omega arith) new_bot-Inv in
      (inv.distinct, inv.measured)
