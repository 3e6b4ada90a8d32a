-- ===== src/LeaderboardApi/Handlers/Routes.antt =====
-- Which contestant and which run the database is asked for.
use iicpc_distributed_benchm.Base.{
  ℕ, ◌≡◌, ◌≢◌, refl, ◌==◌, List, [], ◌∷◌, ◌++◌, true, false, Option, none, some, Text, text,
  text_eq, ne→text_eq, All, Result, arith,
}
use iicpc_distributed_benchm.Float.{Float64}
use iicpc_distributed_benchm.Store.{ContestantStats, query_history}
use iicpc_distributed_benchm.LeaderboardApi.Parameters.{parse_hours}
use iicpc_distributed_benchm.LeaderboardApi.Handlers.{
  answer, cut_first, cut_last, history, run_stats,
}

abbrev pub NoSlash : Text → Type 0
NoSlash = All (λ c. c ≢ b'/')

cut_first-append : (s t : Text) → NoSlash s → cut_first (s ++ b'/' ∷ t) ≡ some (s, t)
unfolding cut_first
cut_first-append [] t h = refl
cut_first-append (c ∷ s) t h =
    let e : (c == b'/') ≡ false = ground (arith, h.0) in rw (e, cut_first-append s t h.1) refl

cut_last-none : (s : Text) → NoSlash s → cut_last s ≡ none
unfolding cut_last
cut_last-none [] h = refl
cut_last-none (c ∷ s) h =
    let e : (c == b'/') ≡ false = ground (arith, h.0) in rw (cut_last-none s h.1, e) refl

cut_last-append : (s t : Text) → NoSlash t → cut_last (s ++ b'/' ∷ t) ≡ some (s, t)
unfolding cut_last
cut_last-append [] t h = rw (cut_last-none t h) refl
cut_last-append (c ∷ s) t h = rw (cut_last-append s t h) refl

-- With a database, and a method other than OPTIONS: the path of the history of a contestant whose id
-- has no slash asks for that contestant, for the hours of the parameter; and the path of the
-- statistics of a run, with any id, asks for that run.
pub routes :
    (f : Float64) (method id run_id hours : Text)
    (query : Text → ℕ → Result (List (Result (ContestantStats f)) × Option Text))
    (query_run : Text → Result (ContestantStats f))
    → method ≢ text "OPTIONS"
    → NoSlash id
    → (history f query true method (text "/contestants/" ++ id ++ text "/history") hours
        ≡ answer (query_history f query id (parse_hours hours)))
      × (run_stats f query_run true method (text "/runs/" ++ run_id ++ text "/stats")
          ≡ answer (query_run run_id))
unfolding history run_stats text_eq
routes f method id run_id hours query query_run other no_slash =
    let e = ne→text_eq method (text "OPTIONS") other in
    (
      rw (e, cut_first-append id (text "history") no_slash) refl,
      rw
          (
            e,
            cut_last-append run_id (text "stats")
                (omega arith, (omega arith, (omega arith, (omega arith, (omega arith, tt))))),
          )
          refl,
    )
