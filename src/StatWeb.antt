-- ===== src/StatWeb.antt =====
-- server/services/stat_web.go: the status of a torrent as a stream of server-sent events.
--
-- Ping and Send hold the mutex, so each is one step. The decimal form of a number, the JSON of a reply
-- and the text of the context's error are parameters. A write to the connection is not checked.
pub mod Numbered
use torrent_web_seeder.Prelude.{
  ℕ, ◌+◌, Bool, true, false, Option, none, some, List, [], ◌∷◌, ◌++◌, if◌then◌else◌, Text, codes,
  Result, ok, err,
}

-- One event as it is written.
pub record Frame : Type 0 where
  pub id : ℕ
  pub event : Text
  pub data_line : Text

-- StatStreamServer: whether the context is done, and the frames that have been written and flushed.
pub record StatStreamServer : Type 0 where
  pub is_done : Bool
  pub counter : ℕ
  pub frames : List Frame

abbrev pub new_stat_stream_server : StatStreamServer
new_stat_stream_server = record { is_done = false; counter = 0; frames = [] }

abbrev pub ping_event : Text
ping_event = codes "ping"

abbrev pub statupdate_event : Text
statupdate_event = codes "statupdate"

-- The three writes of one event, the counter and the flush.
unfoldable pub write_frame : Text → Text → StatStreamServer → StatStreamServer
write_frame event line s = record s {
  counter = s.counter + 1;
  frames = s.frames ++ (record { id = s.counter; event = event; data_line = line } ∷ []);
}

-- The text of a frame.
unfoldable pub render : (ℕ → Text) → Frame → Text
render decimal f =
    codes "id: "
    ++ (decimal f.id
        ++ (codes "\nevent: " ++ (f.event ++ (codes "\ndata: " ++ (f.data_line ++ codes "\n\n")))))

-- Ping at a time in seconds.
unfoldable pub ping : (ℕ → Text) → ℕ → StatStreamServer → StatStreamServer
unfolding write_frame
ping decimal now s = if s.is_done then s else write_frame ping_event (decimal now) s

-- The error that is returned, if there is one.
unfoldable pub send :
    {Reply : Type 0}
    → (Reply → Result Text)
    → Text
    → Reply
    → StatStreamServer
    → StatStreamServer × Option Text
unfolding write_frame
send marshal gone m s = if s.is_done then (s, some gone) else elim (marshal m) [
  | err e ↦ (s, some e)
  | ok line ↦ (write_frame statupdate_event line s, none)
]

-- The headers of the stream.
abbrev pub stream_headers : List (Text × Text)
stream_headers =
    (codes "Content-Type", codes "text/event-stream")
    ∷ (codes "Cache-Control", codes "no-cache")
    ∷ (codes "Connection", codes "keep-alive")
    ∷ (codes "Access-Control-Allow-Origin", codes "*")
    ∷ (codes "X-Accel-Buffering", codes "no")
    ∷ []

-- What Serve does in front of the stream: an error, or the headers. The two tests are whether the
-- writer is the logging handler, and whether the writer in it can flush.
unfoldable pub serve_front : Bool → Bool → Result (List (Text × Text))
serve_front is_handler can_flush =
    if is_handler
    then (if can_flush then ok stream_headers else err (codes "streaming unsupported"))
    else err (codes "unable to get writer")
