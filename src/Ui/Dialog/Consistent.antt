-- ===== src/Ui/Dialog/Consistent.antt =====
-- What every handler of the dialog keeps of its buttons, its connection and its commands.
use hs_financial_services.Common.{
  ℕ, ◌≡◌, refl, ap, sym, ◌∙◌, ◌⊎◌, inl, inr, Bool, true, false, not, Option, none, some, List, [],
  ◌∷◌, ◌++◌, arith, Bool-cases, get_elem?, if◌then◌else◌,
}
use hs_financial_services.Common.Int.{ℤ, pos, negsuc}
use hs_financial_services.Ui.Worker.{Line, Worker, do_disconnect}
use hs_financial_services.Ui.Commands.Table.{CommandEntry, commands}
use hs_financial_services.Ui.Commands.Connection.{IsLinked}
use hs_financial_services.Ui.Dialog.{
  Post, log_line, worker_done, Dialog, post_lines, parted, show_disconnected,
  on_bn_clicked_disconnect, launch, launch_entry, run_selected, LocalTime, stamped, on_log_line,
  on_worker_done,
}
use hs_financial_services.Ui.Dialog.Events.{take_message}
use hs_financial_services.Ui.Dialog.Threads.{dones, busy, dones-logged}

-- No command runs, and the buttons show the connection.
pub record IsIdle (s : Dialog) : Type 0 where
  pub ended : busy s ≡ 0
  pub may_connect : s.connect_enabled ≡ not s.worker.connected
  pub may_disconnect : s.disconnect_enabled ≡ s.worker.connected
  pub may_run : s.run_enabled ≡ s.worker.connected

-- One command runs, or has ended unseen, and no button but `Clear` is enabled.
pub record IsWorking (s : Dialog) : Type 0 where
  pub one : busy s ≡ 1
  pub no_connect : s.connect_enabled ≡ false
  pub no_disconnect : s.disconnect_enabled ≡ false
  pub no_run : s.run_enabled ≡ false

pub record IsConsistent (s : Dialog) : Type 0 where
  pub linked : IsLinked s.worker
  pub buttons : IsIdle s ⊎ IsWorking s

-- A change that keeps the buttons and the number of commands, and the mark of the connection if no
-- command runs.
pub unchanged-IsConsistent :
    (s t : Dialog)
    → IsConsistent s
    → busy t ≡ busy s
    → (t.connect_enabled ≡ s.connect_enabled)
      × (t.disconnect_enabled ≡ s.disconnect_enabled)
      × (t.run_enabled ≡ s.run_enabled)
    → (busy s ≡ 0 → t.worker.connected ≡ s.worker.connected)
    → IsLinked t.worker
    → IsConsistent t
unchanged-IsConsistent s t c same (may_connect, may_disconnect, may_run) mark linked = record {
  linked = linked;
  buttons = elim c.buttons [
    | inl i ↦ inl (record {
      ended = same ∙ i.ended;
      may_connect = may_connect ∙ i.may_connect ∙ ap not (sym (mark i.ended));
      may_disconnect = may_disconnect ∙ i.may_disconnect ∙ sym (mark i.ended);
      may_run = may_run ∙ i.may_run ∙ sym (mark i.ended);
    })
    | inr i ↦ inr (record {
      one = same ∙ i.one;
      no_connect = may_connect ∙ i.no_connect;
      no_disconnect = may_disconnect ∙ i.no_disconnect;
      no_run = may_run ∙ i.no_run;
    })
  ];
}

pub post_lines-IsConsistent :
    (lines : List Line) (s : Dialog) → IsConsistent s → IsConsistent (post_lines lines s)
post_lines-IsConsistent lines s c =
    unchanged-IsConsistent s (post_lines lines s) c (omega (arith, dones-logged s.queue lines))
      (refl, refl, refl) (λ _. refl) c.linked

-- A dialog that shows that there is no connection.
show_disconnected-IsConsistent :
    (s : Dialog)
    → busy s ≡ 0
    → s.worker.connected ≡ false
    → s.worker.socket_open ≡ false
    → IsConsistent (show_disconnected s)
show_disconnected-IsConsistent s ended off shut = record {
  linked = shut ∙ sym off;
  buttons = inl (record {
    ended = ended;
    may_connect = rw off refl;
    may_disconnect = sym off;
    may_run = sym off;
  });
}

do_disconnect-closes :
    (w : Worker)
    → IsLinked w
    → ((do_disconnect w).connected ≡ false) × ((do_disconnect w).socket_open ≡ false)
unfolding do_disconnect
do_disconnect-closes w h = elim (Bool-cases w.socket_open) [
  | inl e ↦ rw e (refl, refl)
  | inr e ↦ rw e (sym h ∙ e, refl)
]

pub disconnect-IsConsistent :
    (s : Dialog) → IsConsistent s → busy s ≡ 0 → IsConsistent (on_bn_clicked_disconnect s)
unfolding on_bn_clicked_disconnect
disconnect-IsConsistent s c ended =
    let shut = do_disconnect-closes s.worker c.linked in
    let s' = record s { worker = do_disconnect s.worker } in
    post_lines-IsConsistent parted (show_disconnected s')
      (show_disconnected-IsConsistent s' ended shut.0 shut.1)

launch-IsConsistent :
    (id : ℤ) (s : Dialog) → IsConsistent s → s.run_enabled ≡ true → IsConsistent (launch id s)
launch-IsConsistent (negsuc n) s c on = c
launch-IsConsistent (pos n) s c on = record {
  linked = c.linked;
  buttons = elim c.buttons [
    | inl i ↦ inr (record {
      one = omega (arith, i.ended);
      no_connect = i.may_connect ∙ ap not (sym i.may_run ∙ on);
      no_disconnect = refl;
      no_run = refl;
    })
    | inr i ↦ cc
  ];
}

launch_entry-IsConsistent :
    (o : Option CommandEntry) (s : Dialog)
    → IsConsistent s
    → s.run_enabled ≡ true
    → IsConsistent (launch_entry o s)
launch_entry-IsConsistent none s c on = c
launch_entry-IsConsistent (some entry) s c on = launch-IsConsistent entry.id s c on

pub run-IsConsistent :
    (sel : Option ℕ) (s : Dialog)
    → IsConsistent s
    → s.run_enabled ≡ true
    → IsConsistent (run_selected sel s)
run-IsConsistent none s c on = c
run-IsConsistent (some sel) s c on = launch_entry-IsConsistent (get_elem? commands sel) s c on

if-IsConsistent :
    (b : Bool) (s t : Dialog)
    → (b ≡ true → IsConsistent s)
    → (b ≡ false → IsConsistent t)
    → IsConsistent (if b then s else t)
if-IsConsistent true s t h h' = h refl
if-IsConsistent false s t h h' = h' refl

-- While the end of a command is in the queue it is the one that runs.
last-IsWorking :
    (queue : List Post) (s : Dialog) → worker_done ∷ queue ≡ s.queue → IsConsistent s → IsWorking s
last-IsWorking queue s e c = elim c.buttons [
  | inl i ↦ absurd (omega (arith, i.ended, ap dones e))
  | inr i ↦ i
]

pub take_message-IsConsistent :
    (now : LocalTime) (queue : List Post) (s : Dialog)
    → queue ≡ s.queue
    → IsConsistent s
    → IsConsistent (take_message now queue s)
unfolding take_message on_log_line on_worker_done
take_message-IsConsistent now [] s e c = c
take_message-IsConsistent now (log_line text ∷ queue) s e c =
    unchanged-IsConsistent s (record s { queue = queue; output = s.output ++ stamped now text }) c
      (omega (arith, ap dones e)) (refl, refl, refl) (λ _. refl) c.linked
take_message-IsConsistent now (worker_done ∷ queue) s e c =
    let s' = record s { queue = queue } in
    let working = last-IsWorking queue s e c in
    let ended : busy s' ≡ 0 = omega (arith, working.one, ap dones e) in
    if-IsConsistent s.worker.connected (record s' { run_enabled = true; disconnect_enabled = true })
      (show_disconnected s')
      (λ on. record {
        linked = c.linked;
        buttons = inl (record {
          ended = ended;
          may_connect = working.no_connect ∙ ap not (sym on);
          may_disconnect = sym on;
          may_run = sym on;
        });
      })
      (λ off. show_disconnected-IsConsistent s' ended off (c.linked ∙ off))
