-- ===== src/Judge/Engine/Outcome.antt =====
-- What the two ends of a run, `fail` and the completion, and the deferred clean-up add to it.
use iicpc_distributed_benchm.Base.{
  ◌≡◌, refl, ap, sym, subst, ◌∙◌, if◌then◌else◌, List, [], ◌∷◌, ◌++◌, Option, none, some, Text,
  text, text_eq, text_eq_refl,
}
use iicpc_distributed_benchm.Float.{Float64}
use iicpc_distributed_benchm.Sandbox.Container.{
  Call, network_list, network_create, container_create, container_start, container_stop,
  container_remove, stop_and_remove,
}
use iicpc_distributed_benchm.Judge.Metrics.{LocalStats, drain_ring_buffer}
use iicpc_distributed_benchm.Judge.Engine.{
  Submission, Config, RunResult, Effect, redis_set, redis_lpush, redis_ltrim, redis_publish, docker,
  run_fleet, Outside, run_failed, Finished, save_result, dockers, run_id, running_result,
  failed_result, completed_result, drained, fail, complete, clean_up,
}

-- `ids` without `id`.
abbrev pub without : Text → List Text → List Text
without id [] = []
without id (i ∷ ids) = let rest = without id ids in if text_eq i id then rest else i ∷ rest

module _ (f : Float64) where
  -- What a sequence of effects comes to: the commands that change Redis, the results saved, the list entries pushed, the messages
  -- published, and the containers that a start was requested of and no forced removal since.
  pub record Log : Type 0 where
    pub saves : List (RunResult f)
    pub pushes : List (Text × Text)
    pub messages : List Text
    pub left : List Text
    pub stored : List (Effect f)

  abbrev pub log_call : Log → Call → Log
  log_call l (network_list name) = l
  log_call l (network_create name driver internal attachable) = l
  log_call l (container_create config name) = l
  log_call l (container_start id) = record l { left = id ∷ l.left }
  log_call l (container_stop id timeout) = l
  log_call l (container_remove id force) = record l {
    left = if force then without id l.left else l.left;
  }

  abbrev pub log_effect : Log → Effect f → Log
  log_effect l (redis_set key r) = record l {
    saves = l.saves ++ r ∷ [];
    stored = l.stored ++ redis_set key r ∷ [];
  }
  log_effect l (redis_lpush key value) = record l {
    pushes = l.pushes ++ (key, value) ∷ [];
    stored = l.stored ++ redis_lpush key value ∷ [];
  }
  log_effect l (redis_ltrim key first last) = record l {
    stored = l.stored ++ redis_ltrim key first last ∷ [];
  }
  log_effect l (redis_publish channel message) = record l { messages = l.messages ++ message ∷ [] }
  log_effect l (docker call) = log_call l call
  log_effect l (run_fleet target) = l

  abbrev pub logs : Log → List (Effect f) → Log
  logs l [] = l
  logs l (e ∷ es) = logs (log_effect l e) es

  abbrev pub blank : Log
  blank = record { saves = []; pushes = []; messages = []; left = []; stored = [] }

  logs-append : (l : Log) (es fs : List (Effect f)) → logs l (es ++ fs) ≡ logs (logs l es) fs
  logs-append l [] fs = refl
  logs-append l (e ∷ es) fs = logs-append (log_effect l e) es fs

  module _ (cfg : Config) (sub : Submission) (o : Outside f) where
    abbrev pub entries : List (Text × Text)
    entries =
        (text "runs:submission:" ++ sub.id, run_id f cfg sub o)
        ∷ (text "runs:contestant:" ++ sub.contestant_id, run_id f cfg sub o)
        ∷ []

    abbrev pub opened : List Text → Log
    opened ids = record {
      saves = running_result f cfg sub o ∷ [];
      pushes = entries;
      messages = [];
      left = ids;
      stored = save_result f (running_result f cfg sub o);
    }

    -- The containers `ids` are left after the effects, and the run has not concluded.
    unfoldable pub Opens : List Text → List (Effect f) → Type 0
    Opens ids es = logs blank es ≡ opened ids

    -- What `drainRingBuffer` has made of the ring buffer.
    abbrev pub drained_stats : LocalStats f
    drained_stats = drained f cfg sub o (drain_ring_buffer f o.ring_buffer)

    -- A run without an error has completed with the statistics of the ring buffer, and published the
    -- contestant; one with an error has failed with it.
    abbrev pub Verdict : Option Text → RunResult f → List Text → Type 0
    Verdict none r messages =
        (r ≡ completed_result f cfg sub o drained_stats) × (messages ≡ sub.contestant_id ∷ [])
    Verdict (some e) r messages = (r.status ≡ run_failed) × (r.error ≡ e) × (messages ≡ [])

    pub record Concluded (ids : List Text) (fin : Finished f) : Type 0 where
      pub saves : (logs blank fin.effects).saves ≡ running_result f cfg sub o ∷ fin.result ∷ []
      pub pushes : (logs blank fin.effects).pushes ≡ entries ++ entries
      pub left : (logs blank fin.effects).left ≡ ids
      pub run_id : fin.result.run_id ≡ run_id f cfg sub o
      pub contestant : fin.result.contestant_id ≡ sub.contestant_id
      pub stored :
          (logs blank fin.effects).stored
          ≡ save_result f (running_result f cfg sub o) ++ save_result f fin.result
      pub verdict : Verdict fin.error fin.result (logs blank fin.effects).messages

    pub Opens-append :
        (ids js : List Text) (es fs : List (Effect f))
        → logs (opened ids) fs ≡ opened js
        → Opens ids es
        → Opens js (es ++ fs)
    unfolding Opens
    Opens-append ids js es fs h op = logs-append blank es fs ∙ (ap (λ l. logs l fs) op ∙ h)

    pub fail-Concluded :
        (ids : List Text) (before : List (Effect f)) (err : Text)
        → Opens ids before
        → Concluded ids (fail f cfg sub o before err)
    unfolding Opens save_result
    fail-Concluded ids before err op =
        let e =
          logs-append blank before (save_result f _)
          ∙ ap
              (λ l.
                logs l
                  (save_result f (failed_result f (running_result f cfg sub o) err o.finished_at)))
              op in
        record {
          saves = ap (λ l. l.saves) e;
          pushes = ap (λ l. l.pushes) e;
          left = ap (λ l. l.left) e;
          run_id = refl;
          contestant = refl;
          stored = ap (λ l. l.stored) e;
          verdict = (refl, refl, ap (λ l. l.messages) e);
        }

    pub complete-Concluded :
        (ids : List Text) (before : List (Effect f))
        → Opens ids before
        → Concluded ids (complete f cfg sub o before drained_stats)
    unfolding Opens save_result
    complete-Concluded ids before op =
        let es =
          save_result f (completed_result f cfg sub o drained_stats)
          ++ redis_publish (text "leaderboard_updates") sub.contestant_id ∷ [] in
        let e = logs-append blank before es ∙ ap (λ l. logs l es) op in
        record {
          saves = ap (λ l. l.saves) e;
          pushes = ap (λ l. l.pushes) e;
          left = ap (λ l. l.left) e;
          run_id = refl;
          contestant = refl;
          stored = ap (λ l. l.stored) e;
          verdict = (refl, ap (λ l. l.messages) e);
        }

    pub clean_up-Concluded :
        (id : Text) (fin : Finished f)
        → Concluded (id ∷ []) fin
        → Concluded [] (clean_up f cfg sub o id fin)
    unfolding stop_and_remove
    clean_up-Concluded id fin c =
        let e = logs-append blank fin.effects (dockers f (stop_and_remove id)) in
        record {
          saves = ap (λ l. l.saves) e ∙ c.saves;
          pushes = ap (λ l. l.pushes) e ∙ c.pushes;
          run_id = c.run_id;
          contestant = c.contestant;
          stored = ap (λ l. l.stored) e ∙ c.stored;
          left = ap (λ l. l.left) e ∙ (ap (without id) c.left ∙ rw (text_eq_refl id) refl);
          verdict = subst (Verdict fin.error fin.result) (sym (ap (λ l. l.messages) e)) c.verdict;
        }
