-- ===== src/Session/Serve.antt =====
-- Runs of a session on a working connection, against the dispatcher run on the same requests.
use hs_financial_services.Common.{
  ◌≡◌, ◌≤◌, refl, ap, sym, ◌∙◌, true, false, List, [], ◌∷◌, ◌++◌, append_assoc, append-nil,
  if◌then◌else◌, ltb, ◌==◌, length, ok, arith, inl, inr, Bool-cases, All,
}
use hs_financial_services.Common.Text.{Bytes}
use hs_financial_services.Protocol.{
  Message, ByteOrder, IsByteOrder, IsHeader, encode_header, decode_header, max_payload_size,
  header_size,
}
use hs_financial_services.Protocol.RoundTrip.{decode_header-encode_header, length-encode_header}
use hs_financial_services.Router.{Router, dispatch}
use hs_financial_services.Session.{
  Session, Pending, nothing, reading_header, reading_body, writing, Completion, Event, success,
  completed, accept_header, complete, step, run, do_write, fill, resize,
}
use hs_financial_services.Session.Buffers.{length-resize}

-- A message as it goes over the wire.
abbrev pub wire : ByteOrder → Message → Bytes
wire o m = encode_header o m.header ++ m.payload

-- A request that a client can send: its header fits, announces the size of its payload and not more
-- than the limit, and its reserved byte is 0.
pub record IsRequest (m : Message) : Type 0 where
  pub header_fits : IsHeader m.header
  pub sized : m.header.payload_length ≡ length m.payload
  pub bounded : length m.payload ≤ max_payload_size
  pub reserved-eq-zero : m.header.reserved ≡ 0

-- The completions of one exchange in which nothing fails.
abbrev pub exchange : ByteOrder → Message → List Event
exchange o m =
    completed (success (encode_header o m.header))
    ∷ (if m.header.payload_length == 0
        then completed (success []) ∷ []
        else completed (success m.payload) ∷ completed (success []) ∷ [])

pub fill_all : (buf bytes : Bytes) → length buf ≡ length bytes → fill buf bytes ≡ bytes
fill_all [] [] h = refl
fill_all [] (c ∷ bytes) h = absurd (omega arith)
fill_all (b ∷ buf) [] h = absurd (omega arith)
fill_all (b ∷ buf) (c ∷ bytes) h = ap (◌∷◌ c) (fill_all buf bytes (omega arith))

nil : (v : Bytes) → length v ≡ 0 → v ≡ []
nil [] h = refl
nil (c ∷ v) h = absurd (omega arith)

pub decode-request :
    (o : ByteOrder) (m : Message)
    → IsByteOrder o
    → IsRequest m
    → decode_header o (encode_header o m.header) ≡ ok m.header
decode-request o m l r =
    let small : ltb max_payload_size m.header.payload_length ≡ false =
      ground (arith, r.sized, r.bounded) in
    decode_header-encode_header o m.header l r.header_fits
    ∙ rw small (ap (λ n. ok (record m.header { reserved = n })) (sym r.reserved-eq-zero))

module _ {S : Type 0} (o : ByteOrder) (router : Router S) where
  run-step :
      (e : Event) (es : List Event) (s : Session) (st : S) (q : Session × S)
      → step o router e s st ≡ q
      → run o router (e ∷ es) s st ≡ run o router es q.0 q.1
  unfolding run
  run-step e es s st q p = ap (λ r. run o router es r.0 r.1) p

  pub step-pending :
      (p : Pending) (c : Completion) (s : Session) (st : S)
      → s.pending ≡ p
      → step o router (completed c) s st ≡ complete o router p c s st
  unfolding step
  step-pending p c s st e = ap (λ r. complete o router r c s st) e

  -- The session when the response to `m` is about to be written, and when it has been.
  abbrev pub writes : Message → Message → Session → Session
  writes m resp s = record s {
    header_buf = encode_header o m.header;
    body_buf = m.payload;
    write_buf = wire o resp;
    current_header = m.header;
    pending = writing;
  }

  abbrev pub answered : Message → Message → Session → Session
  answered m resp s = record (writes m resp s) {
    pending = reading_header;
    sent = s.sent ++ wire o resp;
  }

  written :
      (m resp : Message) (s : Session) (st : S)
      → step o router (completed (success [])) (writes m resp s) st ≡ (answered m resp s, st)
  unfolding step complete
  written m resp s st = refl

  module _ (l : IsByteOrder o) (m : Message) (r : IsRequest m) (s : Session) (st : S)
      (sized : length s.header_buf ≡ header_size) where
    pub filled : fill s.header_buf (encode_header o m.header) ≡ encode_header o m.header
    filled = fill_all s.header_buf _ (sized ∙ sym (length-encode_header o m.header))

    header_read :
        complete o router reading_header (success (encode_header o m.header)) s st
        ≡ accept_header o router
            (ok m.header)
            (record s { header_buf = encode_header o m.header; pending = nothing })
            st
    unfolding complete
    header_read = rw filled (rw (decode-request o m l r))

    pub no_payload : (m.header.payload_length == 0) ≡ true → m.payload ≡ []
    no_payload e = nil m.payload (ground (arith, r.sized))

    -- The session has got the whole request, dispatched it, and begun to write the response.
    pub received_empty :
        (m.header.payload_length == 0) ≡ true
        → complete o router reading_header (success (encode_header o m.header)) s st
          ≡ (writes m (dispatch router m st).0 s, (dispatch router m st).1)
    unfolding accept_header do_write
    received_empty e = header_read ∙ rw (e, accept_header) (rw (no_payload e))

    -- The session when it waits for the body.
    abbrev pub awaits : Session
    awaits = record s {
      header_buf = encode_header o m.header;
      body_buf = resize m.header.payload_length s.body_buf;
      current_header = m.header;
      pending = reading_body;
    }

    pub reads_body :
        (m.header.payload_length == 0) ≡ false
        → complete o router reading_header (success (encode_header o m.header)) s st ≡ (awaits, st)
    unfolding accept_header
    reads_body e = header_read ∙ rw (e, accept_header)

    pub received_body :
        complete o router reading_body (success m.payload) awaits st
        ≡ (writes m (dispatch router m st).0 s, (dispatch router m st).1)
    unfolding complete do_write
    received_body = rw (
        fill_all (resize m.header.payload_length s.body_buf) m.payload
          (length-resize m.header.payload_length s.body_buf ∙ r.sized))

    -- One request and its response, on a session that waits for a header.
    pub run-exchange :
        s.pending ≡ reading_header
        → run o router (exchange o m) s st
          ≡ (answered m (dispatch router m st).0 s, (dispatch router m st).1)
    unfolding run
    run-exchange waits =
        let head = success (encode_header o m.header) in
        let done = completed (success []) in
        let (resp, st') = dispatch router m st in
        elim (Bool-cases (m.header.payload_length == 0)) [
          | inl e ↦ rw e (
              run-step (completed head) (done ∷ []) s st _
                (step-pending reading_header head s st waits ∙ received_empty e)
              ∙ run-step done [] (writes m resp s) st' _ (written m resp s st'))
          | inr e ↦ rw e (
              run-step (completed head) (completed (success m.payload) ∷ done ∷ []) s st _
                (step-pending reading_header head s st waits ∙ reads_body e)
              ∙ run-step (completed (success m.payload)) (done ∷ []) awaits st _
                  (step-pending reading_body (success m.payload) awaits st refl ∙ received_body)
              ∙ run-step done [] (writes m resp s) st' _ (written m resp s st'))
        ]

-- The responses to a sequence of requests, and the final state: the session's specification.
module _ {S : Type 0} (router : Router S) where
  abbrev pub serve : List Message → S → List Message × S
  serve [] st = ([], st)
  serve (m ∷ ms) st =
      let (resp, st') = dispatch router m st in
      let (resps, st'') = serve ms st' in (resp ∷ resps, st'')

abbrev pub wires : ByteOrder → List Message → Bytes
wires o [] = []
wires o (m ∷ ms) = wire o m ++ wires o ms

abbrev pub exchanges : ByteOrder → List Message → List Event
exchanges o [] = []
exchanges o (m ∷ ms) = exchange o m ++ exchanges o ms

module _ {S : Type 0} (o : ByteOrder) (router : Router S) where
  run-append :
      (es fs : List Event) (s : Session) (st : S)
      → run o router (es ++ fs) s st
        ≡ run o router fs (run o router es s st).0 (run o router es s st).1
  unfolding run
  run-append [] fs s st = refl
  run-append (e ∷ es) fs s st = run-append es fs _ _

  -- Well-formed requests that arrive on an open session that waits for a header, on a host with
  -- lawful byte-order functions and a connection that works, are answered in their order: the bytes
  -- sent are the encoded responses of the dispatcher run on them one after the other, the services
  -- end in its state, and the session is open and waits for the next header.
  pub run-exchanges :
      (ms : List Message) (s : Session) (st : S)
      → IsByteOrder o
      → All IsRequest ms
      → s.pending ≡ reading_header
      → length s.header_buf ≡ header_size
      → s.closed ≡ false
      → ((run o router (exchanges o ms) s st).0.sent ≡ s.sent ++ wires o (serve router ms st).0)
        × ((run o router (exchanges o ms) s st).1 ≡ (serve router ms st).1)
        × ((run o router (exchanges o ms) s st).0.pending ≡ reading_header)
        × ((run o router (exchanges o ms) s st).0.closed ≡ false)
  unfolding run
  run-exchanges [] s st l rs waits sized open_ = (sym (append-nil s.sent), refl, waits, open_)
  run-exchanges (m ∷ ms) s st l rs waits sized open_ =
      let resp = (dispatch router m st).0 in
      let ih =
        run-exchanges ms (answered o router m resp s) (dispatch router m st).1 l rs.1 refl
          (length-encode_header o m.header) open_ in
      rw
        (
          run-append (exchange o m) (exchanges o ms) s st,
          run-exchange o router l m rs.0 s st sized waits,
        )
        (ih.0 ∙ append_assoc s.sent (wire o resp) _, ih.1, ih.2, ih.3)
