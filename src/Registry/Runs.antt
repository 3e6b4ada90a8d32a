-- ===== src/Registry/Runs.antt =====
-- The judge engine writes, the registry reads: a run, from its effects on Redis.
use iicpc_distributed_benchm.Base.{
  ℕ, suc, ◌≡◌, ◌≤◌, refl, sym, ap, subst, ◌∙◌, false, List, [], ◌∷◌, map, ◌++◌, none, some, Text,
  text, text_eq, text_eq_refl, done, length, arith,
}
use iicpc_distributed_benchm.Float.{Float64}
use iicpc_distributed_benchm.Redis.{Redis, RedisLaws}
use iicpc_distributed_benchm.Sandbox.Container.{
  network_list, network_create, container_create, container_start, container_stop, container_remove,
}
use iicpc_distributed_benchm.Judge.Engine.{
  Submission, Config, RunResult, Effect, redis_set, redis_lpush, redis_ltrim, redis_publish, docker,
  run_fleet, Outside, Finished, run, run_id, running_result, save_result,
}
use iicpc_distributed_benchm.Judge.Engine.Outcome.{Log, logs, log_effect, blank, Concluded}
use iicpc_distributed_benchm.Judge.Ready.Bounded.{Spaced}
use iicpc_distributed_benchm.Judge.Engine.Returns.{run_concludes}
use iicpc_distributed_benchm.Sandbox.Size.{Size}
use iicpc_distributed_benchm.Registry.{
  Json, value, decode_all, read_ids, get_run_result, list_runs_for_contestant,
}

module _ (r : Redis) (f : Float64) (json : Json (RunResult f)) where
  open r use {S, get, mget, lrange, set_key, lpush, ltrim}

  -- What an effect does to the server, if the server takes the command.
  abbrev pub apply_effect : Effect f → S → S
  apply_effect (redis_set key x) s = set_key key (json.marshal x) s
  apply_effect (redis_lpush key v) s = lpush key v s
  apply_effect (redis_ltrim key first last) s = ltrim key first last s
  apply_effect (redis_publish channel message) s = s
  apply_effect (docker call) s = s
  apply_effect (run_fleet target) s = s

  unfoldable pub apply_all : List (Effect f) → S → S
  apply_all [] s = s
  apply_all (e ∷ es) s = apply_all es (apply_effect e s)

  apply_all-append :
      (es fs : List (Effect f)) (s : S) → apply_all (es ++ fs) s ≡ apply_all fs (apply_all es s)
  unfolding apply_all
  apply_all-append [] fs s = refl
  apply_all-append (e ∷ es) fs s = apply_all-append es fs (apply_effect e s)

  -- One effect, and what the log stores of it.
  apply_logged :
      (e : Effect f) (l : Log f) (s : S)
      → apply_all (log_effect f l e).stored s ≡ apply_effect e (apply_all l.stored s)
  unfolding apply_all
  apply_logged (redis_set key x) l s = apply_all-append l.stored (redis_set key x ∷ []) s
  apply_logged (redis_lpush key v) l s = apply_all-append l.stored (redis_lpush key v ∷ []) s
  apply_logged (redis_ltrim key a b) l s = apply_all-append l.stored (redis_ltrim key a b ∷ []) s
  apply_logged (redis_publish channel message) l s = refl
  apply_logged (run_fleet target) l s = refl
  apply_logged (docker (network_list name)) l s = refl
  apply_logged (docker (network_create name driver internal attachable)) l s = refl
  apply_logged (docker (container_create config name)) l s = refl
  apply_logged (docker (container_start id)) l s = refl
  apply_logged (docker (container_stop id timeout)) l s = refl
  apply_logged (docker (container_remove id force)) l s = refl

  apply_logs :
      (es : List (Effect f)) (l : Log f) (s : S)
      → apply_all (logs f l es).stored s ≡ apply_all es (apply_all l.stored s)
  unfolding apply_all
  apply_logs [] l s = refl
  apply_logs (e ∷ es) l s =
      apply_logs es (log_effect f l e) s ∙ ap (apply_all es) (apply_logged e l s)

  module _ (laws : RedisLaws r) (x : RunResult f) where
    run_key : Text
    run_key = text "run:" ++ x.run_id

    by_submission : Text
    by_submission = text "runs:submission:" ++ x.submission_id

    abbrev by_contestant : Text
    by_contestant = text "runs:contestant:" ++ x.contestant_id

    -- The server after `saveResult`.
    abbrev saved : S → S
    saved s = ltrim by_contestant 0 49 (
        lpush by_contestant x.run_id
          (lpush by_submission x.run_id (set_key run_key (json.marshal x) s)))

    apply-save_result : (s : S) → apply_all (save_result f x) s ≡ saved s
    unfolding apply_all save_result run_key by_submission
    apply-save_result s = refl

    apart :
        (text_eq by_contestant run_key ≡ false)
        × (text_eq by_submission run_key ≡ false)
        × (text_eq run_key by_contestant ≡ false)
        × (text_eq by_submission by_contestant ≡ false)
    unfolding run_key by_submission text_eq
    apart = (refl, refl, refl, refl)

    get-saved : (s : S) → get (saved s) run_key ≡ some (json.marshal x)
    get-saved s =
        laws.get-ltrim by_contestant run_key 0 49 _ apart.0
        ∙ (laws.get-lpush by_contestant run_key x.run_id _ apart.0
            ∙ (laws.get-lpush by_submission run_key x.run_id _ apart.1
                ∙ (laws.get-set run_key run_key (json.marshal x) s
                    ∙ rw (text_eq_refl run_key) refl)))

    lrange-saved :
        (n : ℕ) (s : S)
        → suc n ≤ 49
        → lrange (saved s) by_contestant 0 (suc n) ≡ x.run_id ∷ lrange s by_contestant 0 n
    lrange-saved n s small =
        laws.lrange-ltrim by_contestant 49 (suc n) _ small
        ∙ (laws.lrange-lpush by_contestant x.run_id n _
            ∙ ap (◌∷◌ x.run_id) (
                laws.lrange-lpush_ne by_submission by_contestant x.run_id 0 n _ apart.3
                ∙ laws.lrange-set run_key by_contestant (json.marshal x) 0 n s apart.2))

  module _ (laws : RedisLaws r) (cfg : Config) (sub : Submission) (o : Outside f)
      (fin : Finished f) where
    abbrev running : RunResult f
    running = running_result f cfg sub o

    after_run :
        (s : S)
        → Concluded f cfg sub o [] fin
        → apply_all fin.effects s ≡ saved laws fin.result (saved laws running s)
    unfolding apply_all
    after_run s c =
        sym (apply_logs fin.effects (blank f) s)
        ∙ (ap (λ es. apply_all es s) c.stored
            ∙ (apply_all-append (save_result f running) (save_result f fin.result) s
                ∙ (apply-save_result laws fin.result _
                    ∙ ap (saved laws fin.result) (apply-save_result laws running s))))

    -- The contestant's list after the two saves.
    lrange-both :
        (s : S)
        → Concluded f cfg sub o [] fin
        → lrange
            (saved laws fin.result (saved laws running s))
            (text "runs:contestant:" ++ sub.contestant_id)
            0
            19
          ≡ fin.result.run_id
            ∷ fin.result.run_id
            ∷ lrange s (text "runs:contestant:" ++ sub.contestant_id) 0 17
    lrange-both s c =
        subst
          (λ cid.
            lrange (saved laws fin.result (saved laws running s)) (text "runs:contestant:" ++ cid) 0
              19
            ≡ fin.result.run_id
              ∷ lrange (saved laws running s) (text "runs:contestant:" ++ cid) 0 18)
          c.contestant (lrange-saved laws fin.result 18 (saved laws running s) (omega arith))
        ∙ ap (◌∷◌ fin.result.run_id) (
            lrange-saved laws running 17 s (omega arith)
            ∙ ap (λ id. id ∷ lrange s (text "runs:contestant:" ++ sub.contestant_id) 0 17)
                (sym c.run_id))

    -- The server, when the run is over.
    abbrev pub after : S → S
    after s = apply_all fin.effects s

    get-after :
        (s : S)
        → Concluded f cfg sub o [] fin
        → get (after s) (text "run:" ++ fin.result.run_id) ≡ some (json.marshal fin.result)
    unfolding run_key
    get-after s c =
        ap (λ t. get t (text "run:" ++ fin.result.run_id)) (after_run s c)
        ∙ get-saved laws fin.result (saved laws running s)

    -- What the registry reads of the run, from a server that held `s` before it: its result, and at the
    -- head of the contestant's 20 last runs that result, twice, before the 18 entries that were first.
    abbrev pub IsRead : S → Type 0
    IsRead s =
        (get_run_result r f json none (run_id f cfg sub o) (after s) ≡ value fin.result)
        × (list_runs_for_contestant r f json none none sub.contestant_id 20 (after s)
            ≡ value (
                fin.result
                ∷ fin.result
                ∷ decode_all r json (
                    map (get (after s)) (
                      map (λ i. text "run:" ++ i)
                        (lrange s (text "runs:contestant:" ++ sub.contestant_id) 0 17)))))

    Concluded-IsRead :
        (s : S)
        → Concluded f cfg sub o [] fin
        → json.unmarshal (json.marshal fin.result) ≡ done fin.result
        → IsRead s
    unfolding get_run_result list_runs_for_contestant
    Concluded-IsRead s c back =
        let found = get-after s c in
        (
          rw (← c.run_id, found, back) refl,
          ap (λ ids. read_ids r json none (text "run:") ids (after s))
                (ap (λ t. lrange t (text "runs:contestant:" ++ sub.contestant_id) 0 19)
                    (after_run s c)
                  ∙ lrange-both s c)
              ∙ (ap (λ vs. value (decode_all r json vs)) (laws.mget-map (after s) _)
                  ∙ rw (found, back) refl),
        )

  module _ (laws : RedisLaws r) (cfg : Config) (sub : Submission) (o : Outside f) where
    -- If the dials of `waitForGRPC` end at least 300 ms apart and 35 of them are made, and package
    -- json reads back what it wrote of the result: `Run` returns, and whatever the server held before
    -- it, if the server took its commands, `GetRunResult` of the run's id is the result that `Run`
    -- returned, and the list of the contestant's 20 last runs begins with that result, twice, before
    -- the 18 entries that were first in the list before.
    pub run_stored :
        (show : Size → Text) (s : S)
        → Spaced o.dial_start o.attempts
        → 35 ≤ length o.attempts
        → ((fin : Finished f)
            → run f cfg sub o show ≡ some fin
            → json.unmarshal (json.marshal fin.result) ≡ done fin.result)
        → (fin : Finished f) × (run f cfg sub o show ≡ some fin) × IsRead laws cfg sub o fin s
    run_stored show s spaced enough back =
        let (fin, e, c) = run_concludes f cfg sub o show spaced enough in
        (fin, e, Concluded-IsRead laws cfg sub o fin s c (back fin e))
