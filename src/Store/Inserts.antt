-- ===== src/Store/Inserts.antt =====
-- What `InsertBatch` sends and reports.
use iicpc_distributed_benchm.Base.{
  ℕ, zero, suc, ◌+◌, ◌<◌, ◌≡◌, ◌↔◌, refl, sym, ap, subst₂, ◌∙◌, List, [], ◌∷◌, map, Option, none,
  some, eq_of_some, Text, length, get_elem?, arith,
}
use iicpc_distributed_benchm.Telemetry.{Metric}
use iicpc_distributed_benchm.Store.{
  row, queue_rows, record_error, add_error, collect_errors, join_errors, insert_batch,
}

-- How many of the records from number `i` on fail.
abbrev pub failures : (ℕ → Option Text) → ℕ → ℕ → ℕ
failures exec i zero = 0
failures exec i (suc n) = elim (exec i) [
  | none ↦ failures exec (i + 1) n
  | some e ↦ suc (failures exec (i + 1) n)
]

length-collect_errors :
    (exec : ℕ → Option Text) (rs : List Metric) (i : ℕ)
    → length (collect_errors exec i rs) ≡ failures exec i (length rs)
unfolding collect_errors
length-collect_errors exec [] i = refl
length-collect_errors exec (r ∷ rs) i = ground (arith, length-collect_errors exec rs (i + 1))

-- The database took each record.
abbrev pub AllTaken : (ℕ → Option Text) → List Metric → Type 0
AllTaken exec rs = (i : ℕ) → i < length rs → exec i ≡ none

-- The text is one of the errors.
abbrev pub Reported : Text → List Text → Type 0
Reported x errs = (j : ℕ) × (get_elem? errs j ≡ some x)

Reported-add_error :
    (x : Text) (i : ℕ) (r : Metric) (o : Option Text) (errs : List Text)
    → Reported x errs
    → Reported x (add_error i r o errs)
Reported-add_error x i r none errs h = h
Reported-add_error x i r (some e) errs (j, h) = (suc j, h)

collect_errors-Reported :
    (exec : ℕ → Option Text) (rs : List Metric) (k i : ℕ) (r : Metric) (e : Text)
    → get_elem? rs i ≡ some r
    → exec (k + i) ≡ some e
    → Reported (record_error (k + i) r e) (collect_errors exec k rs)
unfolding collect_errors
collect_errors-Reported exec [] k i r e at failed_row = cc
collect_errors-Reported exec (x ∷ rs) k zero r e at failed_row =
    let zero_right : k + zero ≡ k = omega arith in
    let here : exec k ≡ some e = ap exec (sym zero_right) ∙ failed_row in
    rw (zero_right, here) (0, ap (λ x. some (record_error k x e)) (eq_of_some at))
collect_errors-Reported exec (x ∷ rs) k (suc i) r e at failed_row =
    let shift : k + suc i ≡ k + 1 + i = omega arith in
    rw shift (
      Reported-add_error _ k x (exec k) _
        (collect_errors-Reported exec rs (k + 1) i r e at (ap exec (sym shift) ∙ failed_row)))

nil-add_error :
    (i : ℕ) (r : Metric) (o : Option Text) (errs : List Text)
    → (add_error i r o errs ≡ []) ↔ ((o ≡ none) × (errs ≡ []))
nil-add_error i r none errs = (λ h. (refl, h), λ h. h.1)
nil-add_error i r (some e) errs = (λ h. cc, λ h. cc h.0)

collect_errors-nil :
    (exec : ℕ → Option Text) (rs : List Metric) (k : ℕ)
    → (collect_errors exec k rs ≡ []) ↔ ((i : ℕ) → i < length rs → exec (k + i) ≡ none)
unfolding collect_errors
collect_errors-nil exec [] k = (λ h i small. absurd (omega (arith, small)), λ h. refl)
collect_errors-nil exec (r ∷ rs) k = (
  λ h.
      first (((nil-add_error k r (exec k) _).0 h).0)
        ((collect_errors-nil exec rs (k + 1)).0 ((nil-add_error k r (exec k) _).0 h).1),
  λ h. (nil-add_error k r (exec k) _).1 (
    ap exec (omega arith) ∙ h 0 (omega arith),
    (collect_errors-nil exec rs (k + 1)).1
        (λ i small. ap exec (omega arith) ∙ h (suc i) (omega (arith, small))),
  ),
)
  where
    first :
        exec k ≡ none
        → ((i : ℕ) → i < length rs → exec (k + 1 + i) ≡ none)
        → (i : ℕ) → i < suc (length rs)
        → exec (k + i) ≡ none
    first here later zero small = ap exec (omega arith) ∙ here
    first here later (suc i) small = ap exec (omega arith) ∙ later i (omega (arith, small))

queue_rows-map : (now : ℕ) (rs : List Metric) → queue_rows now rs ≡ map (row now) rs
queue_rows-map now [] = refl
queue_rows-map now (r ∷ rs) = ap (◌∷◌ (row now r)) (queue_rows-map now rs)

join_errors-none : (errs : List Text) → (join_errors errs ≡ none) ↔ (errs ≡ [])
join_errors-none [] = (λ h. refl, λ h. refl)
join_errors-none (e ∷ es) = (λ h. cc, λ h. cc)

-- The errors behind the joined one.
abbrev pub errors_of : Option (List Text) → List Text
errors_of none = []
errors_of (some es) = es

errors_of-join : (errs : List Text) → errors_of (join_errors errs) ≡ errs
errors_of-join [] = refl
errors_of-join (e ∷ es) = refl

-- Of any batch, whatever the database replies to each row: `InsertBatch` sends one row for each record,
-- in their order; it returns no error exactly if every row was taken; else its error joins one error
-- for each row that failed, among them that of each such row with the number of its record.
pub insert_batch-reports :
    (now : ℕ) (exec : ℕ → Option Text) (rs : List Metric)
    → let (rows, error) = insert_batch now exec rs in
      (rows ≡ map (row now) rs)
      × ((error ≡ none) ↔ AllTaken exec rs)
      × (length (errors_of error) ≡ failures exec 0 (length rs))
      × ((i : ℕ) (r : Metric) (e : Text)
          → get_elem? rs i ≡ some r
          → exec i ≡ some e
          → Reported (record_error i r e) (errors_of error))
unfolding insert_batch
insert_batch-reports now exec [] =
    (refl, (λ h i small. absurd (omega (arith, small)), λ h. refl), refl, λ i r e at failed_row. cc)
insert_batch-reports now exec (x ∷ rs) =
    let errs = collect_errors exec 0 (x ∷ rs) in
    (
      queue_rows-map now (x ∷ rs),
      (
        λ h i small.
            ap exec (omega arith)
            ∙ (collect_errors-nil exec (x ∷ rs) 0).0 ((join_errors-none errs).0 h) i small,
        λ h.
            (join_errors-none errs).1 (
              (collect_errors-nil exec (x ∷ rs) 0).1
                (λ i small. ap exec (omega arith) ∙ h i small)),
      ),
      ap length (errors_of-join errs) ∙ length-collect_errors exec (x ∷ rs) 0,
      λ i r e at failed_row.
          let from_zero : 0 + i ≡ i = omega arith in
          subst₂ (λ n es. Reported (record_error n r e) es) from_zero (sym (errors_of-join errs))
            (collect_errors-Reported exec (x ∷ rs) 0 i r e at (ap exec from_zero ∙ failed_row)),
    )
