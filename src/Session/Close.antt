-- ===== src/Session/Close.antt =====
-- The close callback, on which the server's count of connections rests.
use hs_financial_services.Common.{
  ◌≡◌, refl, true, List, [], ◌∷◌, if◌then◌else◌, Result, ok, throw, arith,
}
use hs_financial_services.Protocol.{MessageHeader, ByteOrder, decode_header}
use hs_financial_services.Router.{Router}
use hs_financial_services.Session.{
  Session, Pending, nothing, reading_header, reading_body, writing, new_session, Completion, Event,
  error, success, completed, stopped, close, accept_header, complete, step, run, do_read_body,
  start, destroy, fill,
}

-- The callback has run once if the session is closed, and not yet if it is open.
abbrev pub CalledOnce : Session → Type 0
CalledOnce s = s.on_close_calls ≡ (if s.closed then 1 else 0)

pub close-CalledOnce : (s : Session) → CalledOnce s → CalledOnce (close s)
unfolding close
close-CalledOnce s h = ground arith

pub close-closed : (s : Session) → (close s).closed ≡ true
unfolding close
close-closed s = ground arith

destroy_once : (s : Session) → CalledOnce s → (destroy s).on_close_calls ≡ 1
unfolding destroy
destroy_once s h = ground arith

module _ {S : Type 0} (o : ByteOrder) (router : Router S) where
  do_read_body-CalledOnce :
      (s : Session) (st : S) → CalledOnce s → CalledOnce (do_read_body o router s st).0
  unfolding do_read_body
  do_read_body-CalledOnce s st h = ground arith

  accept_header-CalledOnce :
      (r : Result MessageHeader) (s : Session) (st : S)
      → CalledOnce s
      → CalledOnce (accept_header o router r s st).0
  unfolding accept_header
  accept_header-CalledOnce (throw what) s st h = close-CalledOnce s h
  accept_header-CalledOnce (ok x) s st h = ground arith

  complete-CalledOnce :
      (p : Pending) (c : Completion) (s : Session) (st : S)
      → CalledOnce s
      → CalledOnce (complete o router p c s st).0
  unfolding complete
  complete-CalledOnce nothing c s st h = h
  complete-CalledOnce reading_header error s st h = close-CalledOnce _ h
  complete-CalledOnce reading_header (success buf) s st h =
      accept_header-CalledOnce (decode_header o (fill s.header_buf buf)) _ st h
  complete-CalledOnce reading_body error s st h = close-CalledOnce _ h
  complete-CalledOnce reading_body (success buf) s st h = h
  complete-CalledOnce writing error s st h = close-CalledOnce _ h
  complete-CalledOnce writing (success buf) s st h = h

  pub step-CalledOnce :
      (e : Event) (s : Session) (st : S) → CalledOnce s → CalledOnce (step o router e s st).0
  unfolding step
  step-CalledOnce (completed c) s st h = complete-CalledOnce s.pending c s st h
  step-CalledOnce stopped s st h = close-CalledOnce s h

  run-CalledOnce :
      (es : List Event) (s : Session) (st : S) → CalledOnce s → CalledOnce (run o router es s st).0
  unfolding run
  run-CalledOnce [] s st h = h
  run-CalledOnce (e ∷ es) s st h = run-CalledOnce es _ _ (step-CalledOnce e s st h)

  do_read_body-closed : (s : Session) (st : S) → (do_read_body o router s st).0.closed ≡ s.closed
  unfolding do_read_body
  do_read_body-closed s st = ground arith

  accept_header-closed :
      (r : Result MessageHeader) (s : Session) (st : S)
      → s.closed ≡ true
      → (accept_header o router r s st).0.closed ≡ true
  unfolding accept_header
  accept_header-closed (throw what) s st h = close-closed s
  accept_header-closed (ok x) s st h = ground arith

  complete-closed :
      (p : Pending) (c : Completion) (s : Session) (st : S)
      → s.closed ≡ true
      → (complete o router p c s st).0.closed ≡ true
  unfolding complete
  complete-closed nothing c s st h = h
  complete-closed reading_header error s st h = close-closed (record s { pending = nothing })
  complete-closed reading_header (success buf) s st h =
      accept_header-closed (decode_header o (fill s.header_buf buf))
        (record s { header_buf = fill s.header_buf buf; pending = nothing }) st h
  complete-closed reading_body error s st h = close-closed (record s { pending = nothing })
  complete-closed reading_body (success buf) s st h = h
  complete-closed writing error s st h = close-closed (record s { pending = nothing })
  complete-closed writing (success buf) s st h = h

  -- A closed session stays closed.
  pub step-closed :
      (e : Event) (s : Session) (st : S) → s.closed ≡ true → (step o router e s st).0.closed ≡ true
  unfolding step
  step-closed (completed c) s st h = complete-closed s.pending c s st h
  step-closed stopped s st h = close-closed s

  -- Whatever happens to a session, by the end of its life the callback has run exactly once.
  pub destroy-run-once :
      (es : List Event) (st : S)
      → (destroy (run o router es (start new_session) st).0).on_close_calls ≡ 1
  unfolding destroy close start
  destroy-run-once es st =
      let h = run-CalledOnce es (start new_session) st refl in
      destroy_once (run o router es (start new_session) st).0 h
