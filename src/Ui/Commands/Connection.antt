-- ===== src/Ui/Commands/Connection.antt =====
-- What each command of the combo box does to the connection.
use hs_financial_services.Common.{
  ◌≡◌, refl, sym, ◌∙◌, ◌&&◌, inl, inr, Bool, true, false, Bool-cases,
}
use hs_financial_services.Ui.Worker.{Desktop, Worker, do_disconnect, send}
use hs_financial_services.Ui.Commands.Link.{say_goodbye, run_logout}
use hs_financial_services.Ui.Commands.Table.{CmdId, logout, run_cmd}
use hs_financial_services.Ui.Commands.Keeping.{
  Keeps, Keeping, run_login-Keeping, run_ping-Keeping, run_sql_query-Keeping, run_buy_order-Keeping,
  run_sell_order-Keeping, run_get_position-Keeping, run_get_price_history-Keeping,
  run_batch_test-Keeping,
}

-- `m_socket` is a socket if and only if `m_connected` is set.
abbrev pub IsLinked : Worker → Type 0
IsLinked w = w.socket_open ≡ w.connected

-- Whether a command leaves a connection open.
abbrev pub stays_open : CmdId → Bool
stays_open logout = false
stays_open other = true

abbrev Outcome : CmdId → Worker → Worker → Type 0
Outcome c w w' = (w'.connected ≡ (w.connected && stays_open c)) × IsLinked w'

and_true : (b : Bool) → (b && true) ≡ b
and_true true = refl
and_true false = refl

Keeps-open :
    (w w' : Worker) → IsLinked w → Keeps w w' → (w'.connected ≡ (w.connected && true)) × IsLinked w'
Keeps-open w w' h k =
    (k.same_mark ∙ sym (and_true w.connected), k.same_socket ∙ h ∙ sym k.same_mark)

ruleset keepings = (
  run_login-Keeping, run_ping-Keeping, run_sql_query-Keeping, run_buy_order-Keeping,
  run_sell_order-Keeping, run_get_position-Keeping, run_get_price_history-Keeping,
  run_batch_test-Keeping,
)

run_cmd-Keeping : (d : Desktop) (c : CmdId) → stays_open c ≡ true → Keeping (run_cmd d c)
unfolding run_cmd
run_cmd-Keeping d logout e = cc
run_cmd-Keeping d _ e = search keepings

run_logout-closes : (w : Worker) → IsLinked w → Outcome logout w (run_logout w)
unfolding run_logout say_goodbye send do_disconnect
run_logout-closes w h = elim (Bool-cases w.connected) [
  | inl on ↦ rw (h, on) (refl, refl)
  | inr off ↦ rw (h, off) (refl, refl)
]

-- From a state in which `m_socket` is a socket if and only if `m_connected` is set, whatever the
-- peer does, each command of the dialog ends in such a state again, and it is connected if it was
-- and the command is not `Logout`: no error of a send or a receive ends the connection.
pub run_cmd-connected :
    (d : Desktop) (c : CmdId) (w : Worker)
    → IsLinked w
    → ((run_cmd d c w).connected ≡ (w.connected && stays_open c)) × IsLinked (run_cmd d c w)
unfolding run_cmd
run_cmd-connected d logout w h = run_logout-closes w h
run_cmd-connected d other w h = Keeps-open w _ h (run_cmd-Keeping d other refl w)
