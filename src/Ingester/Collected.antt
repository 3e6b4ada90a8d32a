-- ===== src/Ingester/Collected.antt =====
-- What the collector has made of the messages that came in.
use iicpc_distributed_benchm.Base.{
  ℕ, ◌≡◌, ◌<◌, refl, sym, ap, ◌∙◌, List, [], ◌∷◌, map, ◌++◌, append_assoc, append-nil, Bool, true,
  false, length, All, arith,
}
use iicpc_distributed_benchm.Float.{Float64}
use iicpc_distributed_benchm.Telemetry.{Metric}
use iicpc_distributed_benchm.Ingest.{Histogram, ScoringParams}
use iicpc_distributed_benchm.Ingest.Cell.{add_all}
use iicpc_distributed_benchm.Ingester.{
  Decoded, Effect, Collector, Settings, flush, Event, cancelled, tick, arrival, handle,
  run_collector, start_collector,
}
use iicpc_distributed_benchm.Ingester.Rounds.{
  IsTimed, IsCollecting, Agrees, Round, fill, commit_and_flush-Round, arrival-Round,
}
use iicpc_distributed_benchm.Ingester.Batches.{inserted, committed, received}

map-append : {A B : Type 0} (g : A → B) (xs ys : List A) → map g (xs ++ ys) ≡ map g xs ++ map g ys
map-append g [] ys = refl
map-append g (x ∷ xs) ys = ap (◌∷◌ (g x)) (map-append g xs ys)

-- What a round takes out and leaves, and what the rounds after it do.
chained :
    {A B : Type 0} (g : A → B) (e a b mid before : List B) (ds rest : List A)
    → e ++ mid ≡ before ++ map g ds
    → a ++ b ≡ mid ++ map g rest
    → (e ++ a) ++ b ≡ before ++ map g (ds ++ rest)
chained g e a b mid before ds rest first later =
    append_assoc e a b
    ∙ (ap (λ t. e ++ t) later
        ∙ (sym (append_assoc e mid (map g rest))
            ∙ (ap (λ t. t ++ map g rest) first
                ∙ (append_assoc before (map g ds) (map g rest)
                    ∙ ap (λ t. before ++ t) (sym (map-append g ds rest))))))

module _ (f : Float64) (hist : Histogram) where
  -- Over all rounds.
  abbrev pub all_inserted : List (List (Effect f hist)) → List Metric
  all_inserted [] = []
  all_inserted (es ∷ rounds) = inserted f hist es ++ all_inserted rounds

  abbrev pub all_committed : List (List (Effect f hist)) → List ℕ
  all_committed [] = []
  all_committed (es ∷ rounds) = committed f hist es ++ all_committed rounds

  module _ (cfg : Settings f hist) (p : ScoringParams f) where
    -- What a run from `c` with the messages `ds` comes to.
    pub record Collected (c : Collector f hist) (ds : List Decoded)
        (out : List (List (Effect f hist)) × Collector f hist) : Type 0 where
      pub agrees : All (Agrees f hist cfg p) out.0
      pub records : all_inserted out.0 ++ out.1.pending ≡ c.pending ++ map (λ d. d.rec) ds
      pub messages : all_committed out.0 ++ out.1.to_commit ≡ c.to_commit ++ map (λ d. d.msg) ds
      pub room : length out.1.pending < 200_000

    -- A round, and a run after it.
    Round-Collected :
        {c c' : Collector f hist} {ds rest : List Decoded} {es : List (Effect f hist)}
        {out : List (List (Effect f hist)) × Collector f hist}
        → Round f hist cfg p c ds es c'
        → Collected c' rest out
        → Collected c (ds ++ rest) (es ∷ out.0, out.1)
    Round-Collected {c} {c'} {ds} {rest} {es} {out} r k = record {
      agrees = (r.agrees, k.agrees);
      records =
          chained (λ d. d.rec) (inserted f hist es) (all_inserted out.0) out.1.pending c'.pending
            c.pending ds rest r.records k.records;
      messages =
          chained (λ d. d.msg) (committed f hist es) (all_committed out.0) out.1.to_commit
            c'.to_commit c.to_commit ds rest r.messages k.messages;
      room = k.room;
    }

    no_rounds : (c : Collector f hist) → IsCollecting f hist cfg p c → Collected c [] ([], c)
    no_rounds c k = record {
      agrees = tt;
      records = sym (append-nil c.pending);
      messages = sym (append-nil c.to_commit);
      room = k.room;
    }

    run-Collected :
        (es : List (Event f hist)) (c : Collector f hist)
        → IsCollecting f hist cfg p c
        → All (λ d. IsTimed d.rec) (received f hist es)
        → Collected c (received f hist es) (run_collector f hist cfg c es)
    unfolding run_collector handle
    run-Collected [] c k timed = no_rounds c k
    run-Collected (cancelled now card ∷ es) c k timed =
        let r = commit_and_flush-Round f hist cfg p now card c (fill f hist cfg p c k) in
        Round-Collected r (no_rounds _ r.collecting)
    run-Collected (tick closing now card ∷ es) c k timed =
        let r = commit_and_flush-Round f hist cfg p now card c (fill f hist cfg p c k) in
        Round-Collected r (run-Collected es _ r.collecting timed)
    run-Collected (arrival d closing now card ∷ es) c k timed =
        let r = arrival-Round f hist cfg p c d closing now card k timed.0 in
        Round-Collected r (run-Collected es _ r.collecting timed.1)

    -- From the start, whatever the order of ticks and messages (whose times are 64 bits), up to the
    -- end of the context: what was sent to the database, and after it what is still pending, are the
    -- records that came in, in their order, each once; likewise the messages sent to be committed and
    -- those to commit; fewer than 200 000 records are pending; and in each round the windows sent to
    -- Redis report exactly the records that the round inserts, for every contestant (`Reported`), with
    -- no two windows of one contestant.
    pub run_collector-Collected :
        (now : ℕ) (es : List (Event f hist))
        → All (λ d. IsTimed d.rec) (received f hist es)
        → Collected
            (start_collector f hist cfg now p)
            (received f hist es)
            (run_collector f hist cfg (start_collector f hist cfg now p) es)
    unfolding start_collector add_all
    run_collector-Collected now es timed =
        run-Collected es _ (record { since = now; measured = refl; timed = tt; room = omega arith })
          timed

    -- The context is done at some time.
    abbrev pub is_cancelled : List (Event f hist) → Bool
    is_cancelled [] = false
    is_cancelled (cancelled now card ∷ es) = true
    is_cancelled (tick closing now card ∷ es) = is_cancelled es
    is_cancelled (arrival d closing now card ∷ es) = is_cancelled es

    stopped :
        (es : List (Event f hist)) (c : Collector f hist)
        → is_cancelled es ≡ true
        → ((run_collector f hist cfg c es).1.pending ≡ [])
          × ((run_collector f hist cfg c es).1.to_commit ≡ [])
    unfolding run_collector handle flush
    stopped [] c h = (cc, cc)
    stopped (cancelled now card ∷ es) c h = (refl, refl)
    stopped (tick closing now card ∷ es) c h = stopped es _ h
    stopped (arrival d closing now card ∷ es) c h = stopped es _ h

    -- What the loop asks of the database and of Kafka up to its end: an insert of every record that came
    -- in, each once and in their order, and a commit of every message.
    pub run_collector_sent :
        (now : ℕ) (es : List (Event f hist))
        → All (λ d. IsTimed d.rec) (received f hist es)
        → is_cancelled es ≡ true
        → let (rounds, last) = run_collector f hist cfg (start_collector f hist cfg now p) es in
          (all_inserted rounds ≡ map (λ d. d.rec) (received f hist es))
          × (all_committed rounds ≡ map (λ d. d.msg) (received f hist es))
    unfolding start_collector
    run_collector_sent now es timed h =
        let k = run_collector-Collected now es timed in
        let e = stopped es (start_collector f hist cfg now p) h in
        (
          sym (append-nil _)
              ∙ (ap (λ t. all_inserted rounds ++ t) (sym e.0) ∙ (k.records ∙ started.0)),
          sym (append-nil _)
              ∙ (ap (λ t. all_committed rounds ++ t) (sym e.1) ∙ (k.messages ∙ started.1)),
        )
      where
        rounds : List (List (Effect f hist))
        rounds = (run_collector f hist cfg (start_collector f hist cfg now p) es).0

        started :
            ((start_collector f hist cfg now p).pending ++ map (λ d. d.rec) (received f hist es)
              ≡ map (λ d. d.rec) (received f hist es))
            × ((start_collector f hist cfg now p).to_commit ++ map (λ d. d.msg) (received f hist es)
                ≡ map (λ d. d.msg) (received f hist es))
        started = (refl, refl)
