-- ===== src/Session.antt =====
-- Session (server/src/session.cpp): the read, dispatch and write loop of one connection. Each
-- completion handler is a function on the session and the state of the services; the socket's part
-- is the completions, an error or the bytes of a whole read, which come as events.
pub mod Close
pub mod Buffers
pub mod Serve
pub mod Shared
use hs_financial_services.Common.{
  ℕ, zero, suc, ◌+◌, ◌-◌, ◌≡◌, refl, Bool, true, false, List, [], ◌∷◌, ◌++◌, ◌==◌, if◌then◌else◌,
  length, take, Result, ok, throw,
}
use hs_financial_services.Common.Text.{Bytes}
use hs_financial_services.Protocol.{
  MessageHeader, default_header, Message, ByteOrder, encode_header, decode_header, header_size,
}
use hs_financial_services.Router.{Router, dispatch}

-- The asynchronous operation that a session waits for.
pub data Pending : Type 0 where
  nothing reading_header reading_body writing : Pending

-- `on_close_calls` counts the calls of the close callback, and `sent` is what the peer was sent.
pub record Session : Type 0 where
  pub header_buf : Bytes
  pub body_buf : Bytes
  pub write_buf : Bytes
  pub current_header : MessageHeader
  pub closed : Bool
  pub pending : Pending
  pub on_close_calls : ℕ
  pub sent : Bytes

abbrev pub zeros : ℕ → Bytes
zeros zero = []
zeros (suc n) = 0 ∷ zeros n

-- `std::vector::resize`
abbrev pub resize : ℕ → Bytes → Bytes
resize n buf = take n buf ++ zeros (n - length buf)

-- A read into a buffer: it overwrites the bytes and leaves the size.
abbrev pub fill : Bytes → Bytes → Bytes
fill [] bytes = []
fill (b ∷ buf) [] = b ∷ buf
fill (b ∷ buf) (c ∷ bytes) = c ∷ fill buf bytes

-- The constructor.
abbrev pub new_session : Session
new_session = record {
  header_buf = zeros header_size;
  body_buf = [];
  write_buf = [];
  current_header = default_header;
  closed = false;
  pending = nothing;
  on_close_calls = 0;
  sent = [];
}

-- The socket's `shutdown` and `close` ignore their errors.
unfoldable pub close : Session → Session
close s = if s.closed then s else record s { closed = true; on_close_calls = s.on_close_calls + 1 }

-- The destructor.
unfoldable pub destroy : Session → Session
unfolding close
destroy s = close s

unfoldable pub do_read_header : Session → Session
do_read_header s = record s { pending = reading_header }

unfoldable pub start : Session → Session
unfolding do_read_header
start s = do_read_header s

-- A completion: an error, or success with the bytes that were read.
pub data Completion : Type 0 where
  error : Completion
  success : Bytes → Completion

-- What can happen to a session: its pending operation completes, or a posted `stop` runs.
pub data Event : Type 0 where
  completed : Completion → Event
  stopped : Event

module _ {S : Type 0} (o : ByteOrder) (router : Router S) where
  unfoldable pub do_write : Message → Session → Session
  do_write response s = record s {
    write_buf = encode_header o response.header ++ response.payload;
    pending = writing;
  }

  unfoldable pub dispatch_and_write : Session → S → Session × S
  unfolding do_write
  dispatch_and_write s st =
      let req : Message = record { header = s.current_header; payload = s.body_buf } in
      let (resp, st') = dispatch router req st in (do_write resp s, st')

  unfoldable pub do_read_body : Session → S → Session × S
  unfolding dispatch_and_write
  do_read_body s st =
      if s.current_header.payload_length == 0
      then dispatch_and_write s st
      else (record s { pending = reading_body }, st)

  -- The handler's part behind a successful `decode_header`.
  unfoldable pub accept_header : Result MessageHeader → Session → S → Session × S
  unfolding close do_read_body
  accept_header (throw what) s st = (close s, st)
  accept_header (ok h) s st =
      let next : Session = record s { current_header = h } in
      if h.payload_length == 0
      then do_read_body (record next { body_buf = [] }) st
      else do_read_body (record next { body_buf = resize h.payload_length s.body_buf }) st

  unfoldable pub on_header : Completion → Session → S → Session × S
  unfolding accept_header close
  on_header error s st = (close s, st)
  on_header (success bytes) s st =
      let buf = fill s.header_buf bytes in
      accept_header (decode_header o buf) (record s { header_buf = buf }) st

  unfoldable pub on_body : Completion → Session → S → Session × S
  unfolding dispatch_and_write close
  on_body error s st = (close s, st)
  on_body (success bytes) s st =
      dispatch_and_write (record s { body_buf = fill s.body_buf bytes }) st

  -- A write that succeeds has sent the whole buffer.
  unfoldable pub on_write : Completion → Session → S → Session × S
  unfolding do_read_header close
  on_write error s st = (close s, st)
  on_write (success _) s st = (do_read_header (record s { sent = s.sent ++ s.write_buf }), st)

  -- The handler of the operation that was pending, which is so no longer.
  unfoldable pub complete : Pending → Completion → Session → S → Session × S
  unfolding on_header on_body on_write
  complete nothing c s st = (s, st)
  complete reading_header c s st = on_header c (record s { pending = nothing }) st
  complete reading_body c s st = on_body c (record s { pending = nothing }) st
  complete writing c s st = on_write c (record s { pending = nothing }) st

  unfoldable pub step : Event → Session → S → Session × S
  unfolding complete close
  step (completed c) s st = complete s.pending c s st
  step stopped s st = (close s, st)

  unfoldable pub run : List Event → Session → S → Session × S
  unfolding step
  run [] s st = (s, st)
  run (e ∷ es) s st = let (s', st') = step e s st in run es s' st'
