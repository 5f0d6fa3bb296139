-- ===== src/Ui/Commands/Positions.antt =====
-- The positions that RunGetPosition lists of the server's answer.
use hs_financial_services.Common.{
  ℕ, ◌+◌, ◌≡◌, ◌≢◌, ok, refl, ap, ◌∙◌, List, [], ◌∷◌, ◌++◌, length, arith,
}
use hs_financial_services.Json.{quote, extract_string}
use hs_financial_services.Common.Decimal.{to_string}
use hs_financial_services.Common.Text.{Bytes, codes, Lacks}
use hs_financial_services.Protocol.{Message, make, get_position}
use hs_financial_services.Json.Object.{str}
use hs_financial_services.Json.Object.Lookup.{extract_string-object}
use hs_financial_services.Router.{dispatch, respond}
use hs_financial_services.Router.Dispatch.{dispatch-found, dispatch-IsResponse}
use hs_financial_services.Services.{ServiceState, default_to, default_to-nonempty}
use hs_financial_services.Services.History.{Platform}
use hs_financial_services.Services.Catalog.Table.{server_router, register_services-empty}
use hs_financial_services.Services.Position.{position_text, handle_get_position}
use hs_financial_services.Ui.Socket.{Arrivals}
use hs_financial_services.Ui.Socket.Chunks.{IsOpen, joined}
use hs_financial_services.Ui.Worker.{Line, Desktop, utf8_to_wide, Worker, log_lines}
use hs_financial_services.Ui.Worker.Exchange.{elapsed}
use hs_financial_services.Ui.Commands.{banner}
use hs_financial_services.Ui.Commands.Served.{IsServed, asked, request_command-served}
use hs_financial_services.Ui.Commands.Portfolio.{
  positions_loop, position_lines, account_text, run_get_position,
}
use hs_financial_services.Ui.Commands.Entries.{
  behind_account, three_positions, positions_loop-answer, enough, cash-answer,
}

-- What is logged of the server's answer.
abbrev pub snapshot : Desktop → ℕ → List Line
snapshot d elapsed =
    codes "Portfolio Snapshot:"
    ∷ (three_positions d
        ++ ((codes "  Cash balance : $" ++ utf8_to_wide d (codes "12345.67"))
            ∷ (codes "✓  Position query complete –  3 position(s) in "
                ++ (d.print_ms elapsed ++ codes " ms"))
            ∷ []
            ∷ []))

abbrev pub position_announced : Desktop → Bytes → List Line
position_announced d account =
    (codes "Account : " ++ utf8_to_wide d account) ∷ codes "Sending GET POSITION request..." ∷ []

abbrev pub position_message : Bytes → Message
position_message account = make get_position (account_text account) 0

module _ (d : Desktop) (account : Bytes) (clean : Lacks quote account) where
  position_lines-answer :
      (elapsed : ℕ) → position_lines d elapsed 0x8004 (position_text account) ≡ snapshot d elapsed
  unfolding position_lines to_string
  position_lines-answer elapsed =
      rw
        (
          ap (λ n. positions_loop d n (position_text account) 0 0) (enough d account clean)
              ∙ positions_loop-answer d account clean (length (account ++ behind_account) + 9),
          cash-answer d account clean,
        )
        refl

  handle_get_position-answer :
      (s : ServiceState)
      → account ≢ []
      → handle_get_position (account_text account) s ≡ (ok (position_text account), s)
  unfolding handle_get_position
  handle_get_position-answer s full =
      let found : extract_string (account_text account) (codes "account") ≡ account =
        extract_string-object (codes "account") (str (codes "account") account) [] (ground arith)
          ((ground arith, clean), tt) in
      ap (λ v. (ok (position_text (default_to (codes "UNKNOWN") v)), s)) found
      ∙ ap (λ v. (ok (position_text v), s)) (default_to-nonempty (codes "UNKNOWN") account full)

  pub answer-dispatch :
      (p : Platform) (s : ServiceState)
      → account ≢ []
      → (dispatch (server_router p) (position_message account) s).0
        ≡ respond get_position (ok (position_text account))
  unfolding make
  answer-dispatch p s full =
      ap (λ q. q.0)
        (dispatch-found (server_router p) (position_message account) s handle_get_position
          ((register_services-empty p).1 get_position))
      ∙ ap (λ q. respond get_position q.0) (handle_get_position-answer s full)

  -- A query for an account through a server on a host in network order, whatever the account is that is
  -- not empty and has no quote in it: on a connection that can send the request and on which the
  -- server's response, which is not over the limit, arrives in pieces of whatever sizes, the command
  -- logs, behind its banner and its announcement, the server's three positions with their numbers, the
  -- cash balance, and the time between its two readings of the clock; what arrived behind the response
  -- is left on the connection.
  pub run_get_position-listed :
      (p : Platform) (s : ServiceState) (rest : Bytes) (w : Worker)
      → account ≢ []
      → IsServed get_position
          (account_text account)
          (dispatch (server_router p) (position_message account) s).0
          rest
          w
      → (left : Arrivals) × (run_get_position d account w
          ≡ log_lines (snapshot d (elapsed w)) (
              asked
                (banner (codes "  GET POSITION"))
                (position_announced d account)
                get_position
                (account_text account)
                left
                w))
        × IsOpen left
        × (joined left ≡ rest)
  unfolding run_get_position make respond
  run_get_position-listed p s rest w full served =
      let shows =
        ap (λ m. position_lines d (elapsed w) m.header.message_type m.payload)
          (answer-dispatch p s full)
        ∙ position_lines-answer (elapsed w) in
      request_command-served (banner (codes "  GET POSITION")) (position_announced d account)
        get_position (account_text account) (position_lines d) _ rest w _ shows
        (dispatch-IsResponse (server_router p) (position_message account) s (omega arith)) served
