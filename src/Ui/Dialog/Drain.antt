-- ===== src/Ui/Dialog/Drain.antt =====
-- The dialog when its threads go on and its messages are handled.
use hs_financial_services.Common.{
  ℕ, ◌≡◌, refl, ap, sym, subst, inl, inr, Bool, true, false, List, [], ◌∷◌, ◌++◌, All, append_assoc,
  append-nil, if◌then◌else◌, arith,
}
use hs_financial_services.Ui.Worker.{Line, Desktop, Worker}
use hs_financial_services.Ui.Commands.Table.{run_number}
use hs_financial_services.Ui.Dialog.{
  Post, log_line, worker_done, Thread, starting, posting, Dialog, on_init_dialog, show_disconnected,
  LocalTime, stamped, on_log_line, on_worker_done,
}
use hs_financial_services.Ui.Dialog.Events.{
  posts_of, advance_thread, advance, take_message, Event, thread_moves, message, handle_open,
  handle, run_events,
}
use hs_financial_services.Ui.Dialog.Threads.{dones, pending, busy}
use hs_financial_services.Ui.Dialog.Consistent.{IsIdle, IsConsistent}
use hs_financial_services.Ui.Dialog.Buttons.{run_events-cases, run_events-IsConsistent}

-- An event of no user: a thread moves, or a message is handled at that time.
pub data IsProgress (now : LocalTime) : Event → Type 0 where
  moves : (i : ℕ) → IsProgress now (thread_moves i)
  shows : IsProgress now (message now)

-- What the messages add to the output.
abbrev pub shown : LocalTime → List Post → Line
shown now [] = []
shown now (log_line text ∷ posts) = stamped now text ++ shown now posts
shown now (worker_done ∷ posts) = shown now posts

-- What the threads post, if they go on one after the other.
abbrev pub to_come : Desktop → List Thread → Worker → List Post
to_come d [] w = []
to_come d (starting n ∷ ts) w =
    let w' = run_number d n (record w { log = [] }) in
    posts_of w'.log ++ to_come d ts (record w' { log = [] })
to_come d (posting posts ∷ ts) w = posts ++ to_come d ts w

module _ (d : Desktop) (now : LocalTime) where
  -- Events of no user after which nothing is left to be done and the output is the given one.
  pub record Settles (s : Dialog) (output : Line) : Type 0 where
    pub events : List Event
    pub progress : All (IsProgress now) events
    pub no_threads : (run_events d events s).threads ≡ []
    pub no_messages : (run_events d events s).queue ≡ []
    pub open_ : (run_events d events s).closed ≡ false
    pub displays : (run_events d events s).output ≡ output

  settle-later :
      (e : Event) (s : Dialog) (output : Line)
      → IsProgress now e
      → Settles (handle d e s) output
      → Settles s output
  unfolding run_events
  settle-later e s output h r = record {
    events = e ∷ r.events;
    progress = (h, r.progress);
    no_threads = r.no_threads;
    no_messages = r.no_messages;
    open_ = r.open_;
    displays = r.displays;
  }

  settle-if :
      (b : Bool) (s t : Dialog) (output : Line)
      → Settles s output
      → Settles t output
      → Settles (if b then s else t) output
  settle-if true s t output h h' = h
  settle-if false s t output h h' = h'

  settle-queue :
      (queue : List Post) (s : Dialog)
      → Settles
          (record s { queue = queue; threads = []; closed = false })
          (s.output ++ shown now queue)
  unfolding handle handle_open take_message on_log_line on_worker_done run_events
  settle-queue [] s = record {
    events = [];
    progress = tt;
    no_threads = refl;
    no_messages = refl;
    open_ = refl;
    displays = sym (append-nil s.output);
  }
  settle-queue (log_line text ∷ queue) s = settle-later (message now) _ _ shows (
      subst (Settles _) (append_assoc s.output (stamped now text) (shown now queue))
        (settle-queue queue (record s { output = s.output ++ stamped now text })))
  settle-queue (worker_done ∷ queue) s = settle-later (message now) _ _ shows (
      settle-if s.worker.connected _ _ _
        (settle-queue queue (record s { run_enabled = true; disconnect_enabled = true }))
        (settle-queue queue (show_disconnected s)))

  -- A dialog with these messages and threads.
  abbrev holding : List Post → List Thread → Dialog → Dialog
  holding queue ts s = record s { queue = queue; threads = ts; closed = false }

  abbrev Settling : List Thread → Type 0
  Settling ts =
      (queue : List Post) (s : Dialog)
      → Settles (holding queue ts s) (s.output ++ shown now (queue ++ to_come d ts s.worker))

  settle-posting :
      (posts : List Post) (ts : List Thread) → Settling ts → Settling (posting posts ∷ ts)
  unfolding handle handle_open advance advance_thread
  settle-posting [] ts h queue s = settle-later (thread_moves 0) _ _ (moves 0) (
      subst
        (λ q.
          Settles (holding (queue ++ []) ts s) (s.output ++ shown now (q ++ to_come d ts s.worker)))
        (append-nil queue) (h (queue ++ []) s))
  settle-posting (p ∷ posts) ts h queue s = settle-later (thread_moves 0) _ _ (moves 0) (
      subst
        (λ q. Settles (holding (queue ++ p ∷ []) (posting posts ∷ ts) s) (s.output ++ shown now q))
        (append_assoc queue (p ∷ []) (posts ++ to_come d ts s.worker))
        (settle-posting posts ts h (queue ++ p ∷ []) s))

  settle-threads : (ts : List Thread) → Settling ts
  unfolding handle handle_open advance advance_thread
  settle-threads [] queue s =
      subst (λ q. Settles (holding queue [] s) (s.output ++ shown now q)) (sym (append-nil queue))
        (settle-queue queue s)
  settle-threads (posting posts ∷ ts) queue s = settle-posting posts ts (settle-threads ts) queue s
  settle-threads (starting n ∷ ts) queue s =
      let w' = run_number d n (record (s.worker) { log = [] }) in
      settle-later (thread_moves 0) _ _ (moves 0) (
        subst
          (λ q.
            Settles
              (holding (queue ++ []) (posting (posts_of w'.log) ∷ ts)
                (record s { worker = record w' { log = [] } }))
              (s.output
                ++ shown now (q ++ (posts_of w'.log ++ to_come d ts (record w' { log = [] })))))
          (append-nil queue)
          (settle-posting (posts_of w'.log) ts (settle-threads ts) (queue ++ [])
            (record s { worker = record w' { log = [] } })))

IsIdle-busy : (s : Dialog) → IsConsistent s → busy s ≡ 0 → IsIdle s
IsIdle-busy s c e = elim c.buttons [ inl i ↦ i | inr i ↦ absurd (omega (arith, i.one, e)) ]

settled :
    (d : Desktop) (es : List Event) (s : Dialog)
    → IsConsistent s
    → (run_events d es s).closed ≡ false
    → (run_events d es s).threads ≡ []
    → (run_events d es s).queue ≡ []
    → IsIdle (run_events d es s)
settled d es s c open_ no_threads no_messages = elim (run_events-cases d es s (inr c)) [
  | inl shut ↦ cc
  | inr c' ↦ IsIdle-busy _ c' (omega (arith, ap pending no_threads, ap dones no_messages))
]

-- From every state of a dialog that is reached by events of any kind and is not closed, moves of the
-- threads and handling of the messages lead to a state with no thread and no message left, in which
-- no command runs, `Connect` is enabled if there is no connection, and `Disconnect` and `Run` if
-- there is one. The output has then grown by the lines that were in the queue and by
-- those of the threads' commands, in their order, each with its time.
pub run_events-settles :
    (d : Desktop) (now : LocalTime) (es : List Event) (w : Worker)
    → (run_events d es (on_init_dialog w)).closed ≡ false
    → (more : List Event) × All (IsProgress now) more
      × ((run_events d more (run_events d es (on_init_dialog w))).threads ≡ [])
      × ((run_events d more (run_events d es (on_init_dialog w))).queue ≡ [])
      × IsIdle (run_events d more (run_events d es (on_init_dialog w)))
      × ((run_events d more (run_events d es (on_init_dialog w))).output
          ≡ (run_events d es (on_init_dialog w)).output
            ++ shown now (
                (run_events d es (on_init_dialog w)).queue
                ++ to_come d
                    (run_events d es (on_init_dialog w)).threads
                    (run_events d es (on_init_dialog w)).worker))
run_events-settles d now es w open_ =
    let s = run_events d es (on_init_dialog w) in
    let c = run_events-IsConsistent d es w open_ in
    let r : Settles d now s (s.output ++ shown now (s.queue ++ to_come d s.threads s.worker)) =
      subst
        (λ b.
          Settles d now (record s { closed = b })
            (s.output ++ shown now (s.queue ++ to_come d s.threads s.worker)))
        (sym open_) (settle-threads d now s.threads s.queue s) in
    (
      r.events,
      r.progress,
      r.no_threads,
      r.no_messages,
      settled d r.events s c r.open_ r.no_threads r.no_messages,
      r.displays,
    )
