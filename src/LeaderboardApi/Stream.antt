-- ===== src/LeaderboardApi/Stream.antt =====
-- `/stream` of cmd/leaderboard_api/main.go. `quote` is the verb `%q` of package fmt.
use iicpc_distributed_benchm.Base.{
  ℕ, ◌≡◌, ◌≢◌, refl, sym, ap, ◌∙◌, if◌then◌else◌, List, [], ◌∷◌, ◌++◌, append_assoc, append-nil,
  Bool, true, false, Option, none, some, Text, text, text_eq, ne→text_eq, All,
}
use iicpc_distributed_benchm.LeaderboardApi.Parameters.{set_cors}
use iicpc_distributed_benchm.LeaderboardApi.EventReader.{
  start_reader, read, field, without_last, at_event, IsLineByte, read-append, read_data,
}

-- What the `select` of the loop chooses; a message is nil once the channel of Redis is closed.
pub data StreamEvent : Type 0 where
  client_gone : StreamEvent
  shut_down : StreamEvent
  heartbeat : StreamEvent
  message : (payload : Option Text) → StreamEvent

-- What `/stream` answers: 204, an error, or the headers and the body of a stream.
pub data StreamResponse : Type 0 where
  no_content : StreamResponse
  http_error : (code : ℕ) (message : Text) → StreamResponse
  event_stream : (headers : List (Text × Text)) (body : Text) → StreamResponse

abbrev end_of_event : Text
end_of_event = 10 ∷ 10 ∷ []

module _ (quote : Text → Text) where
  abbrev pub update_frame : Option Text → Text
  update_frame none = []
  update_frame (some payload) =
      text "event: update" ++ 10 ∷ (text "data: " ++ (quote payload ++ end_of_event))

  abbrev pub ping_frame : Text
  ping_frame = text "event: ping" ++ 10 ∷ (text "data: {}" ++ end_of_event)

  -- What the loop writes.
  unfoldable pub stream_loop : List StreamEvent → Text
  stream_loop [] = []
  stream_loop (client_gone ∷ es) = []
  stream_loop (shut_down ∷ es) = []
  stream_loop (heartbeat ∷ es) = ping_frame ++ stream_loop es
  stream_loop (message payload ∷ es) = update_frame payload ++ stream_loop es

  abbrev pub stream_headers : Option (List Text) → Text → List (Text × Text)
  stream_headers origins origin =
      set_cors origins origin
      ++ (text "Content-Type", text "text/event-stream")
        ∷ (text "Cache-Control", text "no-cache")
        ∷ (text "Connection", text "keep-alive")
        ∷ []

  unfoldable pub stream :
      Option (List Text) → Text → Text → Bool → List StreamEvent → StreamResponse
  stream origins origin method can_flush es =
      if text_eq method (text "OPTIONS")
      then no_content
      else if can_flush
      then event_stream (stream_headers origins origin)
          (text ": connected" ++ (end_of_event ++ stream_loop es))
      else http_error 500 (text "streaming unsupported")

module _ (quote : Text → Text) where
  -- The events of the stream: the type and the data of each.
  abbrev pub events_of : List StreamEvent → List (Text × Text)
  events_of [] = []
  events_of (client_gone ∷ es) = []
  events_of (shut_down ∷ es) = []
  events_of (heartbeat ∷ es) = (text "ping", text "{}") ∷ events_of es
  events_of (message none ∷ es) = events_of es
  events_of (message (some payload) ∷ es) = (text "update", quote payload) ∷ events_of es

  read_update :
      (payload : Text) (es : List (Text × Text))
      → All IsLineByte (quote payload)
      → read (at_event es) (update_frame quote (some payload))
        ≡ at_event (es ++ (text "update", quote payload) ∷ [])
  unfolding read field text_eq
  read_update payload es h = read_data (quote payload) es h

  read_ping :
      (es : List (Text × Text))
      → read (at_event es) (ping_frame quote) ≡ at_event (es ++ (text "ping", text "{}") ∷ [])
  unfolding read field text_eq without_last
  read_ping es = refl

  read_connected :
      (rest : Text)
      → read start_reader (text ": connected" ++ (end_of_event ++ rest)) ≡ read (at_event []) rest
  unfolding read field text_eq
  read_connected rest = refl

  module _ (quoted : (payload : Text) → All IsLineByte (quote payload)) where
    next_frame :
        (frame rest : Text) (done_before : List (Text × Text)) (e : Text × Text)
        (es : List (Text × Text))
        → read (at_event done_before) frame ≡ at_event (done_before ++ e ∷ [])
        → read (at_event (done_before ++ e ∷ [])) rest ≡ at_event ((done_before ++ e ∷ []) ++ es)
        → read (at_event done_before) (frame ++ rest) ≡ at_event (done_before ++ e ∷ es)
    next_frame frame rest done_before e es one others =
        read-append frame rest (at_event done_before)
        ∙ (ap (λ r. read r rest) one
            ∙ (others ∙ ap at_event (append_assoc done_before (e ∷ []) es)))

    read-stream_loop :
        (es : List StreamEvent) (done_before : List (Text × Text))
        → read (at_event done_before) (stream_loop quote es)
          ≡ at_event (done_before ++ events_of es)
    unfolding stream_loop read
    read-stream_loop [] before = ap at_event (sym (append-nil before))
    read-stream_loop (client_gone ∷ es) before = ap at_event (sym (append-nil before))
    read-stream_loop (shut_down ∷ es) before = ap at_event (sym (append-nil before))
    read-stream_loop (heartbeat ∷ es) before =
        next_frame (ping_frame quote) (stream_loop quote es) before _ (events_of es)
          (read_ping before) (read-stream_loop es _)
    read-stream_loop (message none ∷ es) before = read-stream_loop es before
    read-stream_loop (message (some payload) ∷ es) before =
        next_frame (update_frame quote (some payload)) (stream_loop quote es) before _
          (events_of es) (read_update payload before (quoted payload)) (read-stream_loop es _)

    -- If `%q` gives no line break: with a method other than OPTIONS, `/stream` answers 500 where it
    -- cannot flush, and else with the headers and a stream in which a reader finds, in order, a ping for each heartbeat
    -- and an update with the quoted payload for each message, up to the end of the client or of the
    -- server, and nothing else.
    pub stream_read :
        (origins : Option (List Text)) (origin method : Text) (es : List StreamEvent)
        → method ≢ text "OPTIONS"
        → (stream quote origins origin method false es
            ≡ http_error 500 (text "streaming unsupported"))
          × ((body : Text) × (stream quote origins origin method true es
                ≡ event_stream (stream_headers quote origins origin) body)
              × ((read start_reader body).dispatched ≡ events_of es))
    unfolding stream
    stream_read origins origin method es other =
        let ne = ne→text_eq method (text "OPTIONS") other in
        (
          rw ne refl,
          (text ": connected" ++ (end_of_event ++ stream_loop quote es), rw ne refl, whole_body),
        )
      where
        whole_body :
            (read start_reader
              (text ": connected" ++ (end_of_event ++ stream_loop quote es))).dispatched
            ≡ events_of es
        whole_body =
            ap (λ r. r.dispatched) (read_connected (stream_loop quote es) ∙ read-stream_loop es [])
