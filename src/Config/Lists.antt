-- ===== src/Config/Lists.antt =====
-- The list parsers on any text, and on a list that was joined by commas.
use iicpc_distributed_benchm.Base.{
  All-map, ℕ, ◌≡◌, ◌≢◌, refl, sym, ap, ap₂, ◌∙◌, ◌==◌, false, Bool-cases, inl, inr, List, [], ◌∷◌,
  ◌++◌, append_assoc, append-nil, ◌<◌, All, All-append, Text, arith, split, trim_space, comma,
  IsPlain, AllPlain, split_last, split-append, trim_space-eq, cons_head, All-trim_space, dec_lt,
  lt→ltb, le→ltb_false,
}
use iicpc_distributed_benchm.Config.{
  brokers_from_csv, split_csv, split_loop, is_empty, keep_nonempty, flush_part, next_cur, next_out,
  string_of_byte, or_local, is_dropped,
}

-- A part that stands for itself: not empty, in ASCII, with no comma and no space.
abbrev pub IsAsciiPlain : ℕ → Type 0
IsAsciiPlain c = IsPlain c × (c < 128)

pub record IsName (p : Text) : Type 0 where
  pub nonempty : is_empty p ≡ false
  pub plain : All IsAsciiPlain p

abbrev pub join : List Text → Text
join [] = []
join (p ∷ []) = p
join (p ∷ q ∷ ps) = p ++ comma ∷ join (q ∷ ps)

AllPlain-of_ascii : (p : Text) → All IsAsciiPlain p → AllPlain p
AllPlain-of_ascii [] h = tt
AllPlain-of_ascii (c ∷ p) h = (h.0.0, AllPlain-of_ascii p h.1)

brokers-join :
    (p : Text) (ps : List Text) → All IsName (p ∷ ps) → brokers_from_csv (join (p ∷ ps)) ≡ p ∷ ps
unfolding brokers_from_csv
brokers-join p [] h =
    let plain = AllPlain-of_ascii p h.0.plain in
    rw (split_last p plain, trim_space-eq p plain, h.0.nonempty)
brokers-join p (q ∷ ps) h =
    let plain = AllPlain-of_ascii p h.0.plain in
    rw (split-append p (join (q ∷ ps)) plain, trim_space-eq p plain, h.0.nonempty)
      (ap (◌∷◌ p) (brokers-join q ps h.1))

-- The loop of `splitCSV` takes a plain part over as it stands.
split_loop-append :
    (p rest cur : Text) (out : List Text)
    → All IsAsciiPlain p
    → split_loop (p ++ rest) cur out ≡ split_loop rest (cur ++ p) out
unfolding split_loop
split_loop-append [] rest cur out h = ap (λ c. split_loop rest c out) (sym (append-nil cur))
split_loop-append (c ∷ p) rest cur out h =
    ap₂ (split_loop (p ++ rest)) step_cur step_out
    ∙ (split_loop-append p rest (cur ++ c ∷ []) out h.1
        ∙ ap (λ t. split_loop rest t out) (append_assoc cur (c ∷ []) p))
  where
    step_out : next_out c cur out ≡ out
    step_out = ground arith

    step_cur : next_cur c cur ≡ cur ++ c ∷ []
    step_cur = ground arith

flush-IsName : (p : Text) (out : List Text) → IsName p → flush_part p out ≡ out ++ p ∷ []
flush-IsName p out h = rw h.nonempty

split_loop-join :
    (p : Text) (ps : List Text) (out : List Text)
    → All IsName (p ∷ ps)
    → split_loop (join (p ∷ ps)) [] out ≡ out ++ p ∷ ps
unfolding split_loop
split_loop-join p [] out h =
    ap (λ t. split_loop t [] out) (sym (append-nil p))
    ∙ (split_loop-append p [] [] out h.0.plain ∙ flush-IsName p out h.0)
split_loop-join p (q ∷ ps) out h =
    split_loop-append p (comma ∷ join (q ∷ ps)) [] out h.0.plain
    ∙ (ap (split_loop (join (q ∷ ps)) []) (flush-IsName p out h.0)
        ∙ (split_loop-join q ps (out ++ p ∷ []) h.1 ∙ append_assoc out (p ∷ []) (q ∷ ps)))

-- On a list of names that was joined by commas, where a name is not empty and has only ASCII
-- characters other than comma and white space, both parsers return the list.
pub parsers-join :
    (p : Text) (ps : List Text)
    → All IsName (p ∷ ps)
    → (brokers_from_csv (join (p ∷ ps)) ≡ p ∷ ps) × (split_csv (join (p ∷ ps)) ≡ p ∷ ps)
unfolding split_csv
parsers-join p ps h = (brokers-join p ps h, ap or_local (split_loop-join p ps [] h))

-- A part that a parser may return: not empty, and without a comma.
pub record IsPart (p : Text) : Type 0 where
  pub nonempty : is_empty p ≡ false
  pub no_comma : All (λ c. (c == comma) ≡ false) p

All-split : (s : Text) → All (All (λ c. (c == comma) ≡ false)) (split comma s)
unfolding split
All-split [] = (tt, tt)
All-split (c ∷ s) = elim (Bool-cases (c == comma)) [
  | inl e ↦ rw e (tt, All-split s)
  | inr e ↦ rw e (All-cons_head c e (split comma s) (All-split s))
]
  where
    All-cons_head :
        (c : ℕ)
        → (c == comma) ≡ false
        → (ss : List Text) → All (All (λ b. (b == comma) ≡ false)) ss
        → All (All (λ b. (b == comma) ≡ false)) (cons_head c ss)
    All-cons_head c e [] h = ((e, tt), tt)
    All-cons_head c e (t ∷ ts) h = ((e, h.0), h.1)

keep_nonempty-IsPart :
    (ps : List Text) → All (All (λ c. (c == comma) ≡ false)) ps → All IsPart (keep_nonempty ps)
keep_nonempty-IsPart [] h = tt
keep_nonempty-IsPart (p ∷ ps) h = elim (Bool-cases (is_empty (trim_space p))) [
  | inl e ↦ rw e (keep_nonempty-IsPart ps h.1)
  | inr e ↦ rw e (
    record { nonempty = e; no_comma = All-trim_space (λ c. (c == comma) ≡ false) p h.0 },
    keep_nonempty-IsPart ps h.1,
  )
]

-- What `splitCSV` keeps of a text: no comma and none of the four white-space bytes.
abbrev pub IsKept : ℕ → Type 0
IsKept c = ((c == comma) ≡ false) × (is_dropped c ≡ false)

pub record IsKeptPart (p : Text) : Type 0 where
  pub nonempty : is_empty p ≡ false
  pub kept : All IsKept p

All-flush_part :
    (cur : Text) (out : List Text)
    → All IsKept cur
    → All IsKeptPart out
    → All IsKeptPart (flush_part cur out)
All-flush_part [] out h hs = hs
All-flush_part (c ∷ cur) out h hs =
    All-append IsKeptPart out ((c ∷ cur) ∷ []) hs (record { nonempty = refl; kept = h }, tt)

All-string_of_byte : (c : ℕ) → IsKept c → c < 256 → All IsKept (string_of_byte c)
All-string_of_byte c h small = elim (dec_lt c 128) [
  | yes ascii ↦ rw (lt→ltb c 128 ascii) (h, tt)
  | no high ↦ rw (le→ltb_false c 128 (omega arith)) (ground arith, (ground arith, tt))
]

split_loop-IsKeptPart :
    (s cur : Text) (out : List Text)
    → All (λ c. c < 256) s
    → All IsKept cur
    → All IsKeptPart out
    → All IsKeptPart (split_loop s cur out)
unfolding split_loop
split_loop-IsKeptPart [] cur out bytes h hs = All-flush_part cur out h hs
split_loop-IsKeptPart (c ∷ s) cur out bytes h hs =
    split_loop-IsKeptPart s (next_cur c cur) (next_out c cur out) bytes.1 cur_kept outs_kept
  where
    cur_kept : All IsKept (next_cur c cur)
    cur_kept = elim (Bool-cases (c == comma)) [
      | inl e ↦ rw e tt
      | inr e ↦ elim (Bool-cases (is_dropped c)) [
        | inl d ↦ rw (e, d) h
        | inr d ↦
            rw (e, d)
              (All-append IsKept cur (string_of_byte c) h (All-string_of_byte c (e, d) bytes.0))
      ]
    ]

    outs_kept : All IsKeptPart (next_out c cur out)
    outs_kept = elim (Bool-cases (c == comma)) [
      | inl e ↦ rw e (All-flush_part cur out h hs)
      | inr e ↦ rw e hs
    ]

or_local-IsKeptPart :
    (out : List Text) → All IsKeptPart out → (or_local out ≢ []) × All IsKeptPart (or_local out)
or_local-IsKeptPart [] h = ((λ e. cc), (record { nonempty = refl; kept = ground arith }, tt))
or_local-IsKeptPart (p ∷ ps) h = ((λ e. cc), h)

-- On a text of ASCII characters: `BrokersFromCSV` returns parts that are not empty and have no comma;
-- `splitCSV` returns a list that is not empty, of parts that are not empty and have no comma, space,
-- tab, line feed or carriage return.
pub parsers_clean :
    (s : Text)
    → All (λ c. c < 128) s
    → All IsPart (brokers_from_csv s) × (split_csv s ≢ []) × All IsKeptPart (split_csv s)
unfolding brokers_from_csv split_csv
parsers_clean s bytes =
    let kept = or_local-IsKeptPart (split_loop s [] []) (
      split_loop-IsKeptPart s [] []
        (All-map (λ c. c < 128) (λ c. c < 256) s (λ c small. omega (arith, small)) bytes) tt tt) in
    (keep_nonempty-IsPart (split comma s) (All-split s), kept.0, kept.1)
