-- ===== src/LeaderboardApi/Applied.antt =====
-- What the effects of the ingester do to Redis: its commands, window by window.
use iicpc_distributed_benchm.Base.{
  get_elem?, ℕ, ◌≡◌, ◌≢◌, refl, sym, ap, ap₂, ◌∙◌, ltb, ◌&&◌, if◌then◌else◌, List, [], ◌∷◌, ◌++◌,
  take, Bool-cases, true, false, inl, inr, Option, none, some, Text, text, text_eq, text_eq_iff,
  ne→text_eq, All, done, arith,
}
use iicpc_distributed_benchm.Float.{Float64}
use iicpc_distributed_benchm.Ingest.{Histogram, ContestantWindow}
use iicpc_distributed_benchm.Ingest.Flush.{find_window, DistinctWindows}
use iicpc_distributed_benchm.Ingester.{
  Command, zadd, set_json, publish, Effect, commit_messages, exec_pipeline, remove_ranks,
  insert_batch, commands_of, trim_ranks,
}
use iicpc_distributed_benchm.Redis.{Redis, RedisLaws}
use iicpc_distributed_benchm.Redis.Ranks.{Ranks, RanksLaws}

abbrev pub leaderboard_set : Text
leaderboard_set = text "leaderboard"

abbrev pub window_key : Text → Text
window_key cid = text "leaderboard:" ++ cid

same_key : (i j : Text) → text_eq (window_key i) (window_key j) ≡ text_eq i j
unfolding text_eq
same_key i j = refl

apart :
    (cid : Text)
    → (text_eq leaderboard_set (window_key cid) ≡ false)
      × (text_eq (window_key cid) leaderboard_set ≡ false)
unfolding text_eq
apart cid = (refl, refl)

module _ (f : Float64) where
  -- A value that a window gives, or the one from before.
  abbrev pub given : {B : Type 0} → (ContestantWindow f → B) → Option (ContestantWindow f) → B → B
  given g none b = b
  given g (some w) b = g w

  -- A score that is a number.
  abbrev pub HasScore : ContestantWindow f → Type 0
  HasScore w = f.leb w.score w.score ≡ true

  -- The ranks that are left: with windows, the `top_n` highest, if that is not 0 and there are more.
  abbrev pub left_ranks : List (ContestantWindow f) → ℕ → ℕ → List Text → List Text
  left_ranks [] top_n card cids = cids
  left_ranks (w ∷ ws) top_n card cids =
      if ltb 0 top_n && ltb top_n card then take top_n cids else cids

module _ (f : Float64) (hist : Histogram) (r : Redis) (z : Ranks f r)
    (show : ContestantWindow f → Text) where
  open r use {S, get, mget, set_key}

  -- What a command and an effect do to the server, if it takes them; `show` is `JSON` of a window.
  abbrev pub apply_command : Command f hist → S → S
  apply_command (zadd key score member) s = z.zadd key score member s
  apply_command (set_json key w) s = set_key key (show w) s
  apply_command (publish channel message) s = s

  abbrev pub apply_commands : List (Command f hist) → S → S
  apply_commands [] s = s
  apply_commands (c ∷ cs) s = apply_commands cs (apply_command c s)

  abbrev pub apply_effect : Effect f hist → S → S
  apply_effect (commit_messages msgs) s = s
  apply_effect (exec_pipeline commands) s = apply_commands commands s
  apply_effect (remove_ranks key a b) s = z.zremrangebyrank key a b s
  apply_effect (insert_batch recs) s = s

  abbrev pub apply_effects : List (Effect f hist) → S → S
  apply_effects [] s = s
  apply_effects (e ∷ es) s = apply_effects es (apply_effect e s)

  find_window-none :
      (cid : Text) (ws : List (ContestantWindow f))
      → All (λ v. cid ≢ v.contestant_id) ws
      → find_window f hist cid ws ≡ none
  unfolding find_window
  find_window-none cid [] h = refl
  find_window-none cid (w ∷ ws) h =
      rw (ne→text_eq w.contestant_id cid (λ e. h.0 (sym e))) (find_window-none cid ws h.1)

  module _ (laws : RedisLaws r) (ranks : RanksLaws f r z) where
    -- After the three commands of a window.
    abbrev pub after_window : ContestantWindow f → S → S
    after_window w s =
        set_key (window_key w.contestant_id) (show w)
          (z.zadd leaderboard_set w.score w.contestant_id s)

    pub get-after_window :
        (w : ContestantWindow f) (cid : Text) (s : S)
        → get (after_window w s) (window_key cid)
          ≡ (if text_eq w.contestant_id cid then some (show w) else get s (window_key cid))
    get-after_window w cid s =
        laws.get-set (window_key w.contestant_id) (window_key cid) (show w) _
        ∙ ap₂ (λ b o. if b then some (show w) else o) (same_key w.contestant_id cid)
            (ranks.get-zadd leaderboard_set (window_key cid) w.contestant_id w.score s
              (apart cid).0)

    pub zscore-after_window :
        (w : ContestantWindow f) (cid : Text) (s : S)
        → f.leb w.score w.score ≡ true
        → z.zscore (after_window w s) leaderboard_set cid
          ≡ (if text_eq w.contestant_id cid then some w.score else z.zscore s leaderboard_set cid)
    zscore-after_window w cid s number =
        ranks.zscore-set leaderboard_set (window_key w.contestant_id) (show w) cid _
          (apart w.contestant_id).1
        ∙ ranks.zscore-zadd leaderboard_set w.contestant_id cid w.score s number

    -- What is read of one contestant after the commands of windows with distinct contestants.
    pub windows_read :
        {B : Type 0} (g : ContestantWindow f → B) (read : S → B) (cid : Text)
        → ((w : ContestantWindow f) (s : S)
            → HasScore f w
            → read (after_window w s) ≡ (if text_eq w.contestant_id cid then g w else read s))
        → (ws : List (ContestantWindow f)) (s : S) → DistinctWindows f hist ws
        → All (HasScore f) ws
        → read (apply_commands (commands_of f hist ws) s)
          ≡ given f g (find_window f hist cid ws) (read s)
    unfolding commands_of find_window
    windows_read g read cid step [] s d h = refl
    windows_read g read cid step (w ∷ ws) s d h =
        windows_read g read cid step ws (after_window w s) d.1 h.1
        ∙ elim (Bool-cases (text_eq w.contestant_id cid)) [
          | inl same ↦
              let e = (text_eq_iff w.contestant_id cid).0 same in
              let gone =
                ap (λ c. find_window f hist c ws) (sym e)
                ∙ find_window-none w.contestant_id ws d.0 in
              rw (same, gone) (step w s h.0 ∙ rw same refl)
          | inr other ↦
              rw other (ap (given f g (find_window f hist cid ws)) (step w s h.0 ∙ rw other refl))
        ]

    pub apply_trim :
        (top_n m : ℕ) (s : S)
        → let s' = apply_effects (trim_ranks f hist top_n (done (z.zcard s leaderboard_set))) s in
          (z.zrevrange s' leaderboard_set 0 m ≡ (
            if ltb 0 top_n && ltb top_n (z.zcard s leaderboard_set)
            then take top_n (z.zrevrange s leaderboard_set 0 m)
            else z.zrevrange s leaderboard_set 0 m))
          × ((cid : Text) → get s' (window_key cid) ≡ get s (window_key cid))
          × ((i : ℕ) (x : Text)
              → get_elem? (z.zrevrange s' leaderboard_set 0 m) i ≡ some x
              → z.zscore s' leaderboard_set x ≡ z.zscore s leaderboard_set x)
    apply_trim top_n m s =
        elim (Bool-cases (ltb 0 top_n && ltb top_n (z.zcard s leaderboard_set))) [
          | inl cut ↦ rw cut (
            ranks.zrevrange-lowest_removed leaderboard_set top_n m s (ground (arith, cut)),
            λ cid. ranks.get-zremrangebyrank leaderboard_set (window_key cid) 0 _ s (apart cid).0,
            λ i x at.
                ranks.zscore-lowest_removed leaderboard_set x top_n m i s (ground (arith, cut)) at,
          )
          | inr kept ↦ rw kept (refl, (λ cid. refl), (λ i x at. refl))
        ]
