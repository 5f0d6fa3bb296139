-- ===== src/Session/Buffers.antt =====
-- The sizes of a session's buffers: the guard against memory exhaustion.
use hs_financial_services.Common.{
  ℕ, zero, suc, ◌+◌, ◌-◌, ◌≡◌, ◌≤◌, refl, ◌∙◌, List, [], ◌∷◌, ◌==◌, length, take, length-append,
  Result, ok, throw, arith, inl, inr, Bool-cases,
}
use hs_financial_services.Common.Text.{Bytes}
use hs_financial_services.Protocol.{
  MessageHeader, ByteOrder, decode_header, max_payload_size, header_size,
}
use hs_financial_services.Router.{Router}
use hs_financial_services.Session.{
  Session, Pending, nothing, reading_header, reading_body, writing, new_session, Completion, Event,
  error, success, completed, stopped, close, accept_header, complete, step, run, start, fill,
  resize, zeros,
}

pub length-fill : (buf bytes : Bytes) → length (fill buf bytes) ≡ length buf
length-fill [] bytes = refl
length-fill (b ∷ buf) [] = refl
length-fill (b ∷ buf) (c ∷ bytes) = omega (arith, length-fill buf bytes)

length-zeros : (n : ℕ) → length (zeros n) ≡ n
length-zeros zero = refl
length-zeros (suc n) = omega (arith, length-zeros n)

length-take_le : (n : ℕ) (buf : Bytes) → length (take n buf) + (n - length buf) ≡ n
length-take_le zero buf = omega arith
length-take_le (suc n) [] = omega arith
length-take_le (suc n) (b ∷ buf) = omega (arith, length-take_le n buf)

pub length-resize : (n : ℕ) (buf : Bytes) → length (resize n buf) ≡ n
length-resize n buf = omega (
  arith,
  length-append {0} (take n buf) (zeros (n - length buf)),
  length-zeros (n - length buf),
  length-take_le n buf,
)

-- The header buffer has its eight bytes, and no body buffer is over the limit; while a body is read
-- the buffer has the size that the header announced.
pub record WellSized (s : Session) : Type 0 where
  pub header_sized : length s.header_buf ≡ header_size
  pub body_bounded : length s.body_buf ≤ max_payload_size
  pub body_sized : s.pending ≡ reading_body → length s.body_buf ≡ s.current_header.payload_length

-- A header that is decoded announces at most the limit.
pub decode_header-bounded :
    (o : ByteOrder) (buf : Bytes) (h : MessageHeader)
    → decode_header o buf ≡ ok h
    → h.payload_length ≤ max_payload_size
unfolding decode_header
decode_header-bounded o buf h e = ground arith

close-WellSized : (s : Session) → WellSized s → WellSized (close s)
unfolding close
close-WellSized s w = record {
  header_sized = ground arith;
  body_bounded = ground arith;
  body_sized = λ e. ground (arith, w.body_sized);
}

-- Between a completion and the next operation.
idle-WellSized :
    (s : Session) (head body : Bytes)
    → length head ≡ header_size
    → length body ≤ max_payload_size
    → WellSized (record s { header_buf = head; body_buf = body; pending = nothing })
idle-WellSized s head body h h' = record {
  header_sized = h;
  body_bounded = h';
  body_sized = λ e. cc;
}

module _ {S : Type 0} (o : ByteOrder) (router : Router S) where
  accept_header-WellSized :
      (r : Result MessageHeader) (s : Session) (st : S)
      → ((h : MessageHeader) → r ≡ ok h → h.payload_length ≤ max_payload_size)
      → WellSized s
      → WellSized (accept_header o router r s st).0
  unfolding accept_header
  accept_header-WellSized (throw what) s st bound w = close-WellSized s w
  accept_header-WellSized (ok h) s st bound w =
      let le = bound h refl in
      elim (Bool-cases (h.payload_length == 0)) [
        | inl empty ↦
            rw (empty, accept_header)
              (record {
                header_sized = w.header_sized;
                body_bounded = omega arith;
                body_sized = λ e. cc;
              })
        | inr more ↦
            rw (more, accept_header)
              (record {
                header_sized = w.header_sized;
                body_bounded = omega (arith, length-resize h.payload_length s.body_buf);
                body_sized = λ e. length-resize h.payload_length s.body_buf;
              })
      ]

  complete-WellSized :
      (p : Pending) (c : Completion) (s : Session) (st : S)
      → WellSized s
      → WellSized (complete o router p c s st).0
  unfolding complete
  complete-WellSized nothing c s st w = w
  complete-WellSized reading_header error s st w =
      close-WellSized _ (idle-WellSized s s.header_buf s.body_buf w.header_sized w.body_bounded)
  complete-WellSized reading_header (success bytes) s st w =
      let head = fill s.header_buf bytes in
      accept_header-WellSized (decode_header o head) _ st (decode_header-bounded o head) (
        idle-WellSized s head s.body_buf (length-fill s.header_buf bytes ∙ w.header_sized)
          w.body_bounded)
  complete-WellSized reading_body error s st w =
      close-WellSized _ (idle-WellSized s s.header_buf s.body_buf w.header_sized w.body_bounded)
  complete-WellSized reading_body (success bytes) s st w = record {
    header_sized = w.header_sized;
    body_bounded = omega (arith, length-fill s.body_buf bytes);
    body_sized = λ e. cc;
  }
  complete-WellSized writing error s st w =
      close-WellSized _ (idle-WellSized s s.header_buf s.body_buf w.header_sized w.body_bounded)
  complete-WellSized writing (success bytes) s st w = record {
    header_sized = w.header_sized;
    body_bounded = w.body_bounded;
    body_sized = λ e. cc;
  }

  -- No event makes a buffer grow over the limit, whatever bytes the peer sends.
  pub step-WellSized :
      (e : Event) (s : Session) (st : S) → WellSized s → WellSized (step o router e s st).0
  unfolding step
  step-WellSized (completed c) s st w = complete-WellSized s.pending c s st w
  step-WellSized stopped s st w = close-WellSized s w

  pub run-WellSized :
      (es : List Event) (s : Session) (st : S) → WellSized s → WellSized (run o router es s st).0
  unfolding run
  run-WellSized [] s st w = w
  run-WellSized (e ∷ es) s st w = run-WellSized es _ _ (step-WellSized e s st w)

pub start-WellSized : WellSized (start new_session)
unfolding start
start-WellSized = record { header_sized = refl; body_bounded = omega arith; body_sized = λ e. cc }

-- Whenever a session waits for a body, whatever has happened to it, the body buffer has just the size
-- that the header announced, at most the limit, and the header buffer has the size of a header.
pub run-buffers :
    {S : Type 0} (o : ByteOrder) (router : Router S) (es : List Event) (st : S)
    → (run o router es (start new_session) st).0.pending ≡ reading_body
    → (length (run o router es (start new_session) st).0.body_buf
        ≡ (run o router es (start new_session) st).0.current_header.payload_length)
      × (length (run o router es (start new_session) st).0.body_buf ≤ max_payload_size)
      × (length (run o router es (start new_session) st).0.header_buf ≡ header_size)
run-buffers o router es st h =
    let w = run-WellSized o router es (start new_session) st start-WellSized in
    (w.body_sized h, w.body_bounded, w.header_sized)
