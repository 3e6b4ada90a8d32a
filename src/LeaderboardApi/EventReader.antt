-- ===== src/LeaderboardApi/EventReader.antt =====
-- The reader of an event stream that the HTML standard describes, for what `/stream` of
-- cmd/leaderboard_api/main.go writes.
use iicpc_distributed_benchm.Base.{
  ℕ, ◌≡◌, refl, sym, ap, ◌∙◌, ◌==◌, if◌then◌else◌, List, [], ◌∷◌, ◌++◌, append_assoc, append-nil,
  Bool, true, false, Text, text, text_eq, All,
}

-- The reader: the line so far, whether a carriage return has just ended one, the buffers of the event
-- type and of the data, and the events dispatched.
pub record Reader : Type 0 where
  pub line : Text
  pub after_cr : Bool
  pub event : Text
  pub data_buffer : Text
  pub dispatched : List (Text × Text)

abbrev pub start_reader : Reader
start_reader = record { line = []; after_cr = false; event = []; data_buffer = []; dispatched = [] }

unfoldable pub without_last : Text → Text
without_last [] = []
without_last (c ∷ []) = []
without_last (c ∷ d ∷ s) = c ∷ without_last (d ∷ s)

abbrev pub type_or_message : Text → Text
type_or_message [] = text "message"
type_or_message (c ∷ s) = c ∷ s

-- An empty line: an event without data is dropped.
abbrev pub dispatch : Reader → Text → Reader
dispatch r [] = record r { line = []; event = [] }
dispatch r (c ∷ s) = record r {
  line = [];
  event = [];
  data_buffer = [];
  dispatched = r.dispatched ++ (type_or_message r.event, without_last (c ∷ s)) ∷ [];
}

abbrev pub without_space : Text → Text
without_space [] = []
without_space (c ∷ s) = if c == b' ' then s else c ∷ s

-- A field with its value.
abbrev pub set_field : Text → Text → Reader → Reader
set_field name value r =
    if text_eq name (text "event")
    then record r { line = []; event = value }
    else if text_eq name (text "data")
    then record r { line = []; data_buffer = r.data_buffer ++ (value ++ 10 ∷ []) }
    else record r { line = [] }

-- A line that is not empty: its name, so far, up to the first colon.
unfoldable pub field : Text → Text → Reader → Reader
field name [] r = set_field name [] r
field name (c ∷ s) r =
    let rest = field (name ++ c ∷ []) s r in
    if c == b':' then set_field name (without_space s) r else rest

abbrev pub end_line : Text → Reader → Reader
end_line [] r = dispatch r r.data_buffer
end_line (c ∷ s) r = field [] (c ∷ s) r

abbrev pub read_byte : Reader → ℕ → Reader
read_byte r c =
    if c == 10
    then (if r.after_cr then record r { after_cr = false } else end_line r.line r)
    else if c == 13
    then record (end_line r.line r) { after_cr = true }
    else record r { line = r.line ++ c ∷ []; after_cr = false }

unfoldable pub read : Reader → Text → Reader
read r [] = r
read r (c ∷ s) = read (read_byte r c) s

abbrev pub IsLineByte : ℕ → Type 0
IsLineByte c = ((c == 10) ≡ false) × ((c == 13) ≡ false)

pub read-append : (s t : Text) (r : Reader) → read r (s ++ t) ≡ read (read r s) t
unfolding read
read-append [] t r = refl
read-append (c ∷ s) t r = read-append s t (read_byte r c)

-- Within a line the reader keeps the bytes.
pub read_line :
    (s : Text) (line event data_buffer : Text) (es : List (Text × Text))
    → All IsLineByte s
    → read
        (record {
          line = line;
          after_cr = false;
          event = event;
          data_buffer = data_buffer;
          dispatched = es;
        })
        s
      ≡ record {
        line = line ++ s;
        after_cr = false;
        event = event;
        data_buffer = data_buffer;
        dispatched = es;
      }
unfolding read
read_line [] line event data_buffer es h =
    ap
      (λ l. record {
        line = l;
        after_cr = false;
        event = event;
        data_buffer = data_buffer;
        dispatched = es;
      })
      (sym (append-nil line))
read_line (c ∷ s) line event data_buffer es h =
    rw (h.0.0, h.0.1)
      (read_line s (line ++ c ∷ []) event data_buffer es h.1
        ∙ ap
            (λ l. record {
              line = l;
              after_cr = false;
              event = event;
              data_buffer = data_buffer;
              dispatched = es;
            })
            (append_assoc line (c ∷ []) s))

-- A reader at the start of an event.
abbrev pub at_event : List (Text × Text) → Reader
at_event es = record start_reader { dispatched = es }

without_last-append : (s : Text) → without_last (s ++ 10 ∷ []) ≡ s
unfolding without_last
without_last-append [] = refl
without_last-append (c ∷ []) = refl
without_last-append (c ∷ d ∷ s) = ap (◌∷◌ c) (without_last-append (d ∷ s))

dispatch-append :
    (r : Reader) (s : Text)
    → dispatch r (s ++ 10 ∷ []) ≡ record r {
      line = [];
      event = [];
      data_buffer = [];
      dispatched = r.dispatched ++ (type_or_message r.event, s) ∷ [];
    }
unfolding without_last
dispatch-append r [] = refl
dispatch-append r (c ∷ s) =
    ap
      (λ t. record r {
        line = [];
        event = [];
        data_buffer = [];
        dispatched = r.dispatched ++ (type_or_message r.event, t) ∷ [];
      })
      (without_last-append (c ∷ s))

-- The data of an update, after its name, dispatches it.
pub read_data :
    (s : Text) (es : List (Text × Text))
    → All IsLineByte s
    → read
        (record (at_event es) { event = text "update"; line = text "data: " })
        (s ++ 10 ∷ 10 ∷ [])
      ≡ at_event (es ++ (text "update", s) ∷ [])
unfolding read field text_eq
read_data s es h =
    read-append s (10 ∷ 10 ∷ []) _
    ∙ (ap (λ r. read r (10 ∷ 10 ∷ [])) (read_line s (text "data: ") (text "update") [] es h)
        ∙ dispatch-append
            (record (at_event es) { event = text "update"; line = []; data_buffer = s ++ 10 ∷ [] })
            s)
