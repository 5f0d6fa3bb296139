-- ===== src/Session/Shared/Delivery.antt =====
-- What a session has sent, against the responses to its requests.
use hs_financial_services.Common.{
  ◌+◌, ◌≡◌, subst, refl, ap, sym, ◌∙◌, ◌⊎◌, inl, inr, true, false, Option, none, some, List, [],
  ◌∷◌, ◌++◌, append_assoc, append-nil, ◌==◌, if◌then◌else◌, Result, ok, throw, Bool-cases,
}
use hs_financial_services.Protocol.{MessageHeader, Message, ByteOrder, decode_header}
use hs_financial_services.Router.{Router, dispatch}
use hs_financial_services.Session.{
  Session, Pending, nothing, reading_header, reading_body, writing, Completion, error, success,
  Event, completed, stopped, close, fill, resize, accept_header, do_read_body, do_write, complete,
  step,
}
use hs_financial_services.Session.Serve.{wire, wires}
use hs_financial_services.Session.Shared.{request_in, request_at, request}

module _ (o : ByteOrder) (ws : List Message) (s : Session) where
  abbrev pub AllSent : Type 0
  AllSent = s.sent ≡ wires o ws

  -- All but the last, which stands in the buffer.
  abbrev pub LastUnsent : Type 0
  LastUnsent =
      (before : List Message) × (last : Message) × (ws ≡ before ++ (last ∷ []))
      × (s.sent ≡ wires o before)
      × (s.write_buf ≡ wire o last)

-- A session that reads has sent all its responses, one that writes is at the last, and one that waits
-- for nothing any more may have failed to send the last.
abbrev pub Delivered : ByteOrder → Pending → List Message → Session → Type 0
Delivered o nothing ws s = AllSent o ws s ⊎ LastUnsent o ws s
Delivered o writing ws s = LastUnsent o ws s
Delivered o other ws s = AllSent o ws s

-- A session that waits for a request has sent everything.
pub Delivered-reading :
    (o : ByteOrder) (ws : List Message) (s : Session)
    → s.pending ≡ reading_header
    → Delivered o s.pending ws s
    → AllSent o ws s
Delivered-reading o ws s e d = subst (λ p. Delivered o p ws s) e d

wires-last :
    (o : ByteOrder) (before : List Message) (last : Message)
    → wires o (before ++ (last ∷ [])) ≡ wires o before ++ wire o last
wires-last o [] last = append-nil (wire o last)
wires-last o (m ∷ before) last =
    ap (◌++◌ (wire o m)) (wires-last o before last)
    ∙ sym (append_assoc (wire o m) (wires o before) (wire o last))

module _ {S : Type 0} (router : Router S) where
  -- The response to what a step dispatches, and what that does to the services.
  abbrev pub answer : Option Message → S → List Message
  answer none st = []
  answer (some m) st = (dispatch router m st).0 ∷ []

  abbrev pub effect : Option Message → S → S
  effect none st = st
  effect (some m) st = (dispatch router m st).1

module _ (o : ByteOrder) where
  -- A session that closes keeps what it has sent.
  close-Delivered :
      (ws : List Message) (s : Session)
      → Delivered o s.pending ws s
      → Delivered o (close s).pending ws (close s)
  unfolding close
  close-Delivered ws s d =
      elim s.closed
        as (λ b.
          let t : Session =
            if b then s else record s { closed = true; on_close_calls = s.on_close_calls + 1 } in
          Delivered o t.pending ws t) [ true ↦ d | false ↦ keep s.pending d ]
    where
      keep :
          (p : Pending)
          → Delivered o p ws s
          → Delivered o p ws (record s { closed = true; on_close_calls = s.on_close_calls + 1 })
      keep nothing d = d
      keep writing d = d
      keep reading_header d = d
      keep reading_body d = d

  module _ {S : Type 0} (router : Router S) where
    -- The responses are sent so far, with those of the step behind them.
    pub record Outcome (r : Option Message) (ws : List Message) (st : S) (q : Session × S)
        : Type 0 where
      pub services : q.1 ≡ effect router r st
      pub delivered : Delivered o q.0.pending (ws ++ answer router r st) q.0

    silent :
        (ws : List Message) (s : Session) (st : S)
        → Delivered o s.pending ws s
        → Outcome none ws st (s, st)
    silent ws s st d = record { services = refl; delivered = rw (append-nil ws) d }

    closes :
        (ws : List Message) (s : Session) (st : S)
        → Delivered o s.pending ws s
        → Outcome none ws st (close s, st)
    closes ws s st d = silent ws (close s) st (close-Delivered ws s d)

    -- The session dispatches, and begins to write.
    dispatches :
        (m : Message) (ws : List Message) (s : Session) (st : S)
        → AllSent o ws s
        → Outcome
            (some m)
            ws
            st
            (do_write o router (dispatch router m st).0 s, (dispatch router m st).1)
    unfolding do_write
    dispatches m ws s st d = record {
      services = refl;
      delivered = (ws, (dispatch router m st).0, refl, d, refl);
    }

    accept_header-Outcome :
        (r : Result MessageHeader) (ws : List Message) (s : Session) (st : S)
        → AllSent o ws s
        → s.pending ≡ nothing
        → Outcome (request_in r) ws st (accept_header o router r s st)
    unfolding accept_header
    accept_header-Outcome (throw what) ws s st d idle =
        closes ws s st (subst (λ p. Delivered o p ws s) (sym idle) (inl d))
    accept_header-Outcome (ok h) ws s st d idle = elim (Bool-cases (h.payload_length == 0)) [
      | inl e ↦
          rw (e, do_read_body)
            (dispatches (record { header = h; payload = [] }) ws
              (record s { current_header = h; body_buf = [] }) st d)
      | inr e ↦
          rw (e, do_read_body)
            (silent ws
              (record s {
                current_header = h;
                body_buf = resize h.payload_length s.body_buf;
                pending = reading_body;
              })
              st d)
    ]

    complete-Outcome :
        (p : Pending) (c : Completion) (ws : List Message) (s : Session) (st : S)
        → s.pending ≡ p
        → Delivered o p ws s
        → Outcome (request_at o p c s) ws st (complete o router p c s st)
    unfolding complete
    complete-Outcome nothing c ws s st e d =
        silent ws s st (subst (λ p. Delivered o p ws s) (sym e) d)
    complete-Outcome reading_header error ws s st e d =
        closes ws (record s { pending = nothing }) st (inl d)
    complete-Outcome reading_header (success bytes) ws s st e d =
        accept_header-Outcome (decode_header o (fill s.header_buf bytes)) ws
          (record s { header_buf = fill s.header_buf bytes; pending = nothing }) st d refl
    complete-Outcome reading_body error ws s st e d =
        closes ws (record s { pending = nothing }) st (inl d)
    complete-Outcome reading_body (success bytes) ws s st e d =
        dispatches (record { header = s.current_header; payload = fill s.body_buf bytes }) ws
          (record s { body_buf = fill s.body_buf bytes; pending = nothing }) st d
    complete-Outcome writing error ws s st e d =
        closes ws (record s { pending = nothing }) st (inr d)
    complete-Outcome writing (success bytes) ws s st e (before, last, split, sent, buffer) =
        silent ws (record s { sent = s.sent ++ s.write_buf; pending = reading_header }) st
          (rw (split, sent, buffer) (sym (wires-last o before last)))

    -- Each event of a session dispatches at most one request, and adds at most its response to what
    -- the session sends.
    pub step-Outcome :
        (e : Event) (ws : List Message) (s : Session) (st : S)
        → Delivered o s.pending ws s
        → Outcome (request o e s) ws st (step o router e s st)
    unfolding step
    step-Outcome (completed c) ws s st d = complete-Outcome s.pending c ws s st refl d
    step-Outcome stopped ws s st d = closes ws s st d
