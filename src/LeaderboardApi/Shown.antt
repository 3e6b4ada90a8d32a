-- ===== src/LeaderboardApi/Shown.antt =====
-- The ingester writes, the leaderboard API reads: what a client sees after a flush.
use iicpc_distributed_benchm.Base.{
  ℕ, ◌-◌, ◌<◌, ◌≡◌, refl, sym, ap, fun_ext, ◌∙◌, List, [], ◌∷◌, ◌++◌, get_elem?, get_or, subst,
  true, some, Text, text, All, done, arith,
}
use iicpc_distributed_benchm.Float.{Float64}
use iicpc_distributed_benchm.Telemetry.{Metric}
use iicpc_distributed_benchm.Ingest.{Histogram, ContestantWindow, flush_and_reset}
use iicpc_distributed_benchm.Ingest.Flush.{find_window, DistinctWindows}
use iicpc_distributed_benchm.Ingester.{
  Effect, Collector, Settings, commands_of, publish_windows, insert_pending, flush,
}
use iicpc_distributed_benchm.Redis.{Redis, RedisLaws}
use iicpc_distributed_benchm.Redis.Ranks.{Ranks, RanksLaws}
use iicpc_distributed_benchm.LeaderboardApi.Parameters.{parse_limit}
use iicpc_distributed_benchm.LeaderboardApi.Handlers.{json_value, Objects, leaderboard}
use iicpc_distributed_benchm.LeaderboardApi.Handlers.Ranks.{entries, leaderboard-entries}
use iicpc_distributed_benchm.LeaderboardApi.Applied.{
  apply_commands, apply_effect, apply_effects, given, leaderboard_set, window_key, get-after_window,
  zscore-after_window, HasScore, windows_read, left_ranks, apply_trim,
}

module _ (f : Float64) (hist : Histogram) (r : Redis) (z : Ranks f r)
    (show : ContestantWindow f → Text) where
  open r use {S, get, mget}

  module _ (laws : RedisLaws r) (ranks : RanksLaws f r z) where
    apply_effects-append :
        (es fs : List (Effect f hist)) (s : S)
        → apply_effects f hist r z show (es ++ fs) s
          ≡ apply_effects f hist r z show fs (apply_effects f hist r z show es s)
    apply_effects-append [] fs s = refl
    apply_effects-append (e ∷ es) fs s =
        apply_effects-append es fs (apply_effect f hist r z show e s)

    apply_insert :
        (recs : List Metric) (s : S)
        → apply_effects f hist r z show (insert_pending f hist recs) s ≡ s
    apply_insert [] s = refl
    apply_insert (m ∷ ms) s = refl

    -- What the windows and the trimming make of the ranks and of the entries.
    record IsFlushed (ws : List (ContestantWindow f)) (top_n m : ℕ) (s₁ s' : S) : Type 0 where
      ranked :
          z.zrevrange s' leaderboard_set 0 m
          ≡ left_ranks f ws top_n (z.zcard s₁ leaderboard_set) (z.zrevrange s₁ leaderboard_set 0 m)
      kept : (cid : Text) → get s' (window_key cid) ≡ get s₁ (window_key cid)
      scores :
          (i : ℕ) (x : Text)
          → get_elem? (z.zrevrange s' leaderboard_set 0 m) i ≡ some x
          → z.zscore s' leaderboard_set x ≡ z.zscore s₁ leaderboard_set x

    publish_windows-IsFlushed :
        (ws : List (ContestantWindow f)) (top_n m : ℕ) (s : S)
        → let s₁ = apply_commands f hist r z show (commands_of f hist ws) s in
          IsFlushed ws top_n m s₁ (
            apply_effects f hist r z show
              (publish_windows f hist top_n (done (z.zcard s₁ leaderboard_set)) ws)
              s)
    unfolding commands_of
    publish_windows-IsFlushed [] top_n m s = record {
      ranked = refl;
      kept = λ cid. refl;
      scores = λ i x at. refl;
    }
    publish_windows-IsFlushed (w ∷ ws) top_n m s =
        let t =
          apply_trim f hist r z show laws ranks top_n m
            (apply_commands f hist r z show (commands_of f hist (w ∷ ws)) s) in
        record { ranked = t.0; kept = t.1; scores = t.2 }

    module _ (objects : Objects) (cfg : Settings f hist) (now : ℕ) (c : Collector f hist) where
      -- The windows of the flush, and the server when it has taken their commands.
      abbrev pub flushed_windows : List (ContestantWindow f)
      flushed_windows = (flush_and_reset f hist c.agg now cfg.window).0

      abbrev pub with_windows : S → S
      with_windows s = apply_commands f hist r z show (commands_of f hist flushed_windows) s

      -- The server after all effects of the flush, whose `ZCARD` was answered.
      abbrev pub after_flush : S → S
      after_flush s =
          apply_effects f hist r z show
            (flush f hist cfg now (done (z.zcard (with_windows s) (text "leaderboard"))) c).0 s

      -- The contestants that `/leaderboard` lists then.
      abbrev pub listed : Text → S → List Text
      listed limit s =
          left_ranks f flushed_windows cfg.top_n (z.zcard (with_windows s) (text "leaderboard"))
            (z.zrevrange (with_windows s) (text "leaderboard") 0 (parse_limit limit - 1))

      after_flush-IsFlushed :
          (m : ℕ) (s : S) → IsFlushed flushed_windows cfg.top_n m (with_windows s) (after_flush s)
      unfolding flush
      after_flush-IsFlushed m s =
          subst (IsFlushed flushed_windows cfg.top_n m (with_windows s))
            (sym (
              apply_effects-append
                (publish_windows f hist cfg.top_n
                  (done (z.zcard (with_windows s) (text "leaderboard"))) flushed_windows)
                (insert_pending f hist c.pending) s
              ∙ apply_insert c.pending _))
            (publish_windows-IsFlushed flushed_windows cfg.top_n m s)

      -- After a flush with windows of distinct contestants and scores that are numbers, whose commands
      -- Redis has taken: `/leaderboard` answers with the entries of the contestants that rank highest,
      -- at most `top_n` of them if the set was larger; the entry of a contestant with a window is that
      -- window, and of another the one from before; in the ranking that is left, each contestant listed
      -- has the score of its window, or the one from before without a window; and who is listed before
      -- another has no lower score there.
      pub flush_shown :
          (s : S) (limit : Text)
          → DistinctWindows f hist flushed_windows
          → All (HasScore f) flushed_windows
          → (leaderboard objects
                (λ a b. done (z.zrevrange (after_flush s) (text "leaderboard") a b))
                (λ keys. done (mget (after_flush s) keys))
                (text "GET")
                limit
              ≡ json_value (
                  entries objects
                    (λ cid.
                      given f
                        (λ w. some (show w))
                        (find_window f hist cid flushed_windows)
                        (get s (text "leaderboard:" ++ cid)))
                    (listed limit s)))
            × ((i : ℕ) (cid : Text)
                → get_elem? (listed limit s) i ≡ some cid
                → z.zscore (after_flush s) (text "leaderboard") cid
                  ≡ given f
                      (λ w. some w.score)
                      (find_window f hist cid flushed_windows)
                      (z.zscore s (text "leaderboard") cid))
            × ((i j : ℕ) (x y : Text) (a b : f.F)
                → i < j
                → get_elem? (listed limit s) i ≡ some x
                → get_elem? (listed limit s) j ≡ some y
                → z.zscore (after_flush s) (text "leaderboard") x ≡ some a
                → z.zscore (after_flush s) (text "leaderboard") y ≡ some b
                → f.leb b a ≡ true)
      flush_shown s limit distinct scored =
          let flushed = after_flush-IsFlushed (parse_limit limit - 1) s in
          (
            leaderboard-entries objects r laws (after_flush s)
                  (λ a b. done (z.zrevrange (after_flush s) (text "leaderboard") a b))
                  (listed limit s) (text "GET") limit (λ e. omega (arith, ap (λ t. get_or t 0 0) e))
                  (ap done flushed.ranked)
                ∙ ap (λ value. json_value (entries objects value (listed limit s)))
                    (fun_ext (λ cid.
                      flushed.kept cid
                      ∙ windows_read f hist r z show laws ranks (λ w. some (show w))
                          (λ t. get t (window_key cid)) cid
                          (λ w t number. get-after_window f hist r z show laws ranks w cid t)
                          flushed_windows s distinct scored)),
            λ i cid at.
                flushed.scores i cid
                  (subst (λ cids. get_elem? cids i ≡ some cid) (sym flushed.ranked) at)
                ∙ windows_read f hist r z show laws ranks (λ w. some w.score)
                    (λ t. z.zscore t leaderboard_set cid) cid
                    (λ w t number. zscore-after_window f hist r z show laws ranks w cid t number)
                    flushed_windows s distinct scored,
            λ i j x y a b before at_i at_j score_x score_y.
                ranks.zrevrange_sorted leaderboard_set (parse_limit limit - 1) i j x y a b
                  (after_flush s) before
                  (subst (λ cids. get_elem? cids i ≡ some x) (sym flushed.ranked) at_i)
                  (subst (λ cids. get_elem? cids j ≡ some y) (sym flushed.ranked) at_j) score_x
                  score_y,
          )
