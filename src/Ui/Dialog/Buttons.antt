-- ===== src/Ui/Dialog/Buttons.antt =====
-- The buttons of the dialog while commands run.
use hs_financial_services.Common.{
  ℕ, ◌≡◌, refl, ap, ◌⊎◌, inl, inr, Bool, true, false, List, [], ◌∷◌, arith, if◌then◌else◌,
}
use hs_financial_services.Ui.Worker.{Desktop, Worker}
use hs_financial_services.Ui.Dialog.{
  Dialog, on_init_dialog, on_bn_clicked_connect, on_bn_clicked_disconnect, on_bn_clicked_run,
  on_bn_clicked_clear, on_cancel,
}
use hs_financial_services.Ui.Dialog.Events.{
  advance, moved, Event, edited, chose, clicked_connect, clicked_disconnect, clicked_run,
  clicked_clear, thread_moves, message, cancelled, when, handle_open, handle, run_events,
}
use hs_financial_services.Ui.Dialog.Threads.{
  busy, dones-append, advance-pending, advance-IsLinked, advance-idle,
}
use hs_financial_services.Ui.Dialog.Connects.{
  connect-idle, disconnect-idle, connect_to-IsConsistent,
}
use hs_financial_services.Ui.Dialog.Consistent.{
  unchanged-IsConsistent, IsConsistent, disconnect-IsConsistent, run-IsConsistent,
  take_message-IsConsistent,
}

moved-IsConsistent :
    (d : Desktop) (i : ℕ) (s : Dialog)
    → IsConsistent s
    → IsConsistent (moved (advance d i s.threads s.worker) s)
moved-IsConsistent d i s c =
    let step = advance d i s.threads s.worker in
    let same : busy (moved step s) ≡ busy s =
      omega (arith, advance-pending d i s.threads s.worker, dones-append s.queue step.1) in
    unchanged-IsConsistent s (moved step s) c same (refl, refl, refl)
      (λ ended.
        ap (λ (w : Worker). w.connected)
          (advance-idle d i s.threads s.worker (omega (arith, ended))))
      (advance-IsLinked d i s.threads s.worker c.linked)

when-IsConsistent :
    (enabled : Bool) (f : Dialog → Dialog) (s : Dialog)
    → IsConsistent s
    → (enabled ≡ true → IsConsistent (f s))
    → IsConsistent (when enabled f s)
when-IsConsistent true f s c h = h refl
when-IsConsistent false f s c h = c

handle_open-IsConsistent :
    (d : Desktop) (e : Event) (s : Dialog)
    → IsConsistent s
    → ((handle_open d e s).closed ≡ true) ⊎ IsConsistent (handle_open d e s)
unfolding handle_open on_bn_clicked_clear on_bn_clicked_connect on_bn_clicked_run on_cancel
handle_open-IsConsistent d (edited host port) s c =
    inr (unchanged-IsConsistent s _ c refl (refl, refl, refl) (λ _. refl) c.linked)
handle_open-IsConsistent d (chose i) s c =
    inr (unchanged-IsConsistent s _ c refl (refl, refl, refl) (λ _. refl) c.linked)
handle_open-IsConsistent d (clicked_connect resolved error) s c = inr (
    when-IsConsistent s.connect_enabled (on_bn_clicked_connect d resolved error) s c
      λ on. connect_to-IsConsistent s.host d resolved error s c (connect-idle s c on))
handle_open-IsConsistent d clicked_disconnect s c = inr (
    when-IsConsistent s.disconnect_enabled on_bn_clicked_disconnect s c
      λ on. disconnect-IsConsistent s c (disconnect-idle s c on))
handle_open-IsConsistent d clicked_run s c =
    inr (
      when-IsConsistent s.run_enabled on_bn_clicked_run s c
        λ on. run-IsConsistent s.selected s c on)
handle_open-IsConsistent d clicked_clear s c =
    inr (unchanged-IsConsistent s _ c refl (refl, refl, refl) (λ _. refl) c.linked)
handle_open-IsConsistent d (thread_moves i) s c = inr (moved-IsConsistent d i s c)
handle_open-IsConsistent d (message now) s c = inr (take_message-IsConsistent now s.queue s refl c)
handle_open-IsConsistent d cancelled s c = inl refl

if-open :
    (shut : Bool) (s t : Dialog)
    → (shut ≡ true → s.closed ≡ true)
    → (shut ≡ false → (t.closed ≡ true) ⊎ IsConsistent t)
    → ((if shut then s else t).closed ≡ true) ⊎ IsConsistent (if shut then s else t)
if-open true s t h h' = inl (h refl)
if-open false s t h h' = h' refl

handle-IsConsistent :
    (d : Desktop) (e : Event) (s : Dialog)
    → (s.closed ≡ true) ⊎ IsConsistent s
    → ((handle d e s).closed ≡ true) ⊎ IsConsistent (handle d e s)
unfolding handle
handle-IsConsistent d e s h =
    if-open s.closed s (handle_open d e s) (λ shut. shut)
      λ open_. elim h [ inl shut ↦ cc | inr c ↦ handle_open-IsConsistent d e s c ]

pub run_events-cases :
    (d : Desktop) (es : List Event) (s : Dialog)
    → (s.closed ≡ true) ⊎ IsConsistent s
    → ((run_events d es s).closed ≡ true) ⊎ IsConsistent (run_events d es s)
unfolding run_events
run_events-cases d [] s h = h
run_events-cases d (e ∷ es) s h = run_events-cases d es (handle d e s) (handle-IsConsistent d e s h)

pub on_init_dialog-IsConsistent : (w : Worker) → IsConsistent (on_init_dialog w)
unfolding on_init_dialog
on_init_dialog-IsConsistent w = record {
  linked = refl;
  buttons =
      inl (record { ended = refl; may_connect = refl; may_disconnect = refl; may_run = refl });
}

-- Whatever is clicked, however the threads move and whenever messages are handled, and whatever the
-- peers do: as long as the dialog is not closed, `m_socket` is a socket if and only if
-- `m_connected` is set, and at most one command is launched whose `WM_WORKER_DONE` has not been
-- handled. While there is one, `Connect`, `Disconnect` and `Run` are disabled; while there is none,
-- `Connect` is enabled if there is no connection, and the other two if there is one.
pub run_events-IsConsistent :
    (d : Desktop) (es : List Event) (w : Worker)
    → (run_events d es (on_init_dialog w)).closed ≡ false
    → IsConsistent (run_events d es (on_init_dialog w))
run_events-IsConsistent d es w open_ =
    elim (run_events-cases d es (on_init_dialog w) (inr (on_init_dialog-IsConsistent w))) [
      | inl shut ↦ cc
      | inr c ↦ c
    ]
