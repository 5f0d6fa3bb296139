-- ===== src/Ui/App.antt =====
-- CHSClientApp (ui_client/src/HSClientApp.h, ui_client/src/HSClientApp.cpp): Winsock around the dialog,
-- which runs as a modal one until it is closed.
use hs_financial_services.Common.{
  ℕ, ◌+◌, Bool, false, Option, none, some, List, [], ◌∷◌, ◌==◌, if◌then◌else◌,
}
use hs_financial_services.Common.Text.{codes}
use hs_financial_services.Ui.Worker.{Line, Desktop, Worker}
use hs_financial_services.Ui.Dialog.{Dialog, on_init_dialog}
use hs_financial_services.Ui.Dialog.Events.{Event, run_events}

-- What the application has done: how often Winsock was started and cleaned up, the boxes that it has
-- shown, and the dialog as it was left.
pub record App : Type 0 where
  pub startups : ℕ
  pub cleanups : ℕ
  pub boxes : List Line
  pub dialog : Option Dialog

-- The constructor.
abbrev pub new_app : App
new_app = record { startups = 0; cleanups = 0; boxes = []; dialog = none }

abbrev pub no_winsock : Line
no_winsock = codes "Failed to initialise Winsock 2."

-- For the result of `WSAStartup`, and the events of the dialog until `DoModal` returns. The value is
-- FALSE on both ways: no message pump runs behind the dialog.
unfoldable pub init_instance : Desktop → ℕ → Worker → List Event → App → Bool × App
unfolding run_events on_init_dialog
init_instance d startup worker es app =
    if startup == 0
    then (
      false,
      record app {
        startups = app.startups + 1;
        cleanups = app.cleanups + 1;
        dialog = some (run_events d es (on_init_dialog worker));
      },
    )
    else (false, record app { boxes = no_winsock ∷ app.boxes })
