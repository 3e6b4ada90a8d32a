-- ===== src/JudgeApi/Handlers/Scans.antt =====
-- What the administration handlers delete.
use iicpc_distributed_benchm.Base.{
  ℕ, ◌≡◌, ◌≢◌, refl, ap, sym, ap₂, ◌∙◌, ◌==◌, List, [], ◌∷◌, ◌++◌, append-nil, append_assoc, true,
  false, Option, none, some, Text, text, All, All-append, done, arith,
}
use iicpc_distributed_benchm.JudgeApi.Handlers.{
  json_resp, Page, Scanned, after_page, scan_loop, finish_scan, second_scan, clear_runs,
}

abbrev pub concat : List (List Text) → List Text
concat [] = []
concat (ks ∷ kss) = ks ++ concat kss

abbrev pub NonEmpty : List Text → Type 0
NonEmpty [] = ⊥
NonEmpty (k ∷ ks) = Unit

-- A page that Redis delivered, and whose keys it deleted.
abbrev pub page : List Text → ℕ → Page
page keys next = record { reply = done (keys, next); del_error = none }

-- A whole scan: pages with a cursor that is not 0, and a last one.
pub record Scan : Type 0 where
  pub before : List (List Text × ℕ)
  pub last : List Text

abbrev pub keys_of : List (List Text × ℕ) → List Text
keys_of [] = []
keys_of ((keys, next) ∷ ps) = keys ++ keys_of ps

abbrev pub pages_of : List (List Text × ℕ) → List Text → List Page
pages_of [] last = page last 0 ∷ []
pages_of ((keys, next) ∷ ps) last = page keys next ∷ pages_of ps last

abbrev pub AllOpen : List (List Text × ℕ) → Type 0
AllOpen = All (λ p. p.1 ≢ 0)

-- The scan has ended well, has deleted exactly `keys`, and has asked for no deletion of no key.
pub record Deletes (keys : List Text) (s : Scanned) : Type 0 where
  pub ended : s.outcome ≡ some none
  pub deleted : concat s.deleted ≡ keys
  pub nonempty : All NonEmpty s.deleted

last_page : (keys : List Text) (rest : Scanned) → Deletes keys (after_page keys true none rest)
last_page [] rest = record { ended = refl; deleted = refl; nonempty = tt }
last_page (k ∷ ks) rest = record {
  ended = refl;
  deleted = append-nil (k ∷ ks);
  nonempty = (tt, tt);
}

open_page :
    (keys more : List Text) (rest : Scanned)
    → Deletes more rest
    → Deletes (keys ++ more) (after_page keys false none rest)
open_page [] more rest d = d
open_page (k ∷ ks) more rest d = record {
  ended = d.ended;
  deleted = ap (λ t. (k ∷ ks) ++ t) d.deleted;
  nonempty = (tt, d.nonempty);
}

scan_loop-Deletes :
    (before : List (List Text × ℕ)) (last : List Text)
    → AllOpen before
    → Deletes (keys_of before ++ last) (scan_loop (pages_of before last))
unfolding scan_loop
scan_loop-Deletes [] last h = last_page last _
scan_loop-Deletes ((keys, next) ∷ ps) last h =
    let e : (next == 0) ≡ false = ground (arith, h.0) in
    rw (e, append_assoc keys (keys_of ps) last)
      (open_page keys (keys_of ps ++ last) _ (scan_loop-Deletes ps last h.1))

concat-append : (xs ys : List (List Text)) → concat (xs ++ ys) ≡ concat xs ++ concat ys
concat-append [] ys = refl
concat-append (x ∷ xs) ys = rw (concat-append xs ys) (sym (append_assoc x (concat xs) (concat ys)))

both_scans :
    (o : Option (Option Text)) (keys more : List Text) (first second : Scanned)
    → o ≡ some none
    → Deletes keys first
    → Deletes more second
    → Deletes (keys ++ more) (second_scan o first second)
both_scans o keys more first second ended d e = rw ended (record {
  ended = e.ended;
  deleted = concat-append first.deleted second.deleted ∙ ap₂ (λ a b. a ++ b) d.deleted e.deleted;
  nonempty = All-append NonEmpty first.deleted second.deleted d.nonempty e.nonempty;
})

finish_scan-Deletes :
    (status : Text) (keys : List Text) (s : Scanned)
    → Deletes keys s
    → finish_scan status s ≡ some (json_resp 200 status)
finish_scan-Deletes status keys s d = rw (d.ended) refl

-- When every page of the two scans arrives and every `DEL` succeeds, `clearRuns` answers 200, the
-- keys it deletes are those of the pages, in their order, and no `DEL` is without a key.
pub clear_runs-deletes :
    (runs lists : List (List Text × ℕ)) (last_runs last_lists : List Text)
    → AllOpen runs
    → AllOpen lists
    → ((clear_runs (pages_of runs last_runs) (pages_of lists last_lists)).0
        ≡ some (json_resp 200 (text "runs cleared")))
      × (concat (clear_runs (pages_of runs last_runs) (pages_of lists last_lists)).1
          ≡ (keys_of runs ++ last_runs) ++ (keys_of lists ++ last_lists))
      × All NonEmpty (clear_runs (pages_of runs last_runs) (pages_of lists last_lists)).1
unfolding clear_runs
clear_runs-deletes runs lists last_runs last_lists open_runs open_lists =
    let d =
      both_scans _ _ _ _ _ (scan_loop-Deletes runs last_runs open_runs).ended
        (scan_loop-Deletes runs last_runs open_runs)
        (scan_loop-Deletes lists last_lists open_lists) in
    (finish_scan-Deletes (text "runs cleared") _ _ d, d.deleted, d.nonempty)
