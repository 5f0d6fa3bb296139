-- ===== src/Lib.antt =====
-- HS-FinancialServices: a banking server over a binary protocol, a load generator, and a UI client.
--
-- The server (server/) accepts TCP connections; a session reads a header of eight bytes and a JSON
-- payload, the router calls the service for the message type, and the session writes the response and
-- reads on. The load generator (load_generator/) runs many clients of that protocol and collects their
-- latencies. The UI client (ui_client/) has its own codec and blocking sends and receives.
--
-- The files and what they model, with the names of the source kept where there is one:
--   Protocol   server/include/protocol.hpp: constants, MessageHeader, Message::make, encode_header and
--              decode_header. Children: round trip, and the byte orders of real hosts.
--   Json       the key searches of the services (extract_string, extract_number, extract_int),
--              json_escape, and ExtractField of ui_client/src/MainDlg.cpp. Json/Object says what they
--              find in the text of a flat object.
--   Router     server/include/service_router.hpp: register_handler and dispatch.
--   Services   server/src/services/*.cpp, one module for each file, and register_services of
--              server/src/main.cpp (Services/Catalog).
--   Session    server/src/session.cpp: each completion handler is a function on the session's buffers and
--              the state of the services; do_read_header's handler is on_header with accept_header,
--              do_read_body's is on_body, do_write's is on_write. A run takes a list of events, which are
--              the completions of the pending operation and a posted stop. Session/Shared takes the steps of
--              many sessions, which share the services, in any order.
--   Server     server/src/server.cpp: the accept handler and the sessions that close meanwhile, each
--              atomic operation a step of a relation (Server); the same server with its sessions, as a
--              function on events (Server/Running); and server/src/main.cpp with the constructor and run
--              of Server (Server/Main), where what is thrown is a result, which main catches or which
--              terminates the process.
--   Loadgen    load_generator/src: the random requests (Scenario), the client (ClientSession, events as
--              for the session), the statistics (Metrics), and all clients of a run with the stop flag
--              and the count of those in flight (Campaign), the report (Metrics/Report) and the main
--              function around them (Main). Round puts a client and a server session together.
--   Ui         ui_client/src/MainDlg.cpp and MainDlg.h: the codec (Wire), and SendAll, RecvAll, SendMsg
--              and RecvMsg over a socket that takes and yields bytes in pieces of any size (Socket); the
--              connection and the log that the commands work on (Worker); the commands, one function for
--              each Run... method, and the table of the combo box (Commands); the dialog with its
--              handlers, its message queue and its worker threads (Dialog); InitInstance of
--              ui_client/src/HSClientApp.cpp (App); and the helpers that nothing calls (Unused).
--   Common     tests, lists, bytes, numbers in decimal, `int`, and what the two main functions share: options, threads, and how
--              a process ends (Process).
--   Tests      concrete values and examples.
--
-- Numbers are natural numbers, with the wrap of 16, 32 and 64-bit words written out where a sum or a cast
-- may reach it; `int` is Common/Int where it may be negative. Text is a list of bytes. Searches give none
-- for npos. An exception is a result. Loops recurse on their data, but for RecvAll, whose fuel is the
-- number of bytes it is to read, as each receive that succeeds yields one at least, and for the loops of
-- the commands over the text of a response, whose fuel is one more than its bytes, as each round begins
-- behind the last.
--
-- A worker thread of the dialog runs its command in one step and then posts the lines one by one: the UI
-- thread does not touch the connection meanwhile, unless the dialog is closed.
--
-- Parameters stand for what the programs call: the byte-order functions of the platform (with their
-- documented laws), the command line, the setup of the acceptor and of the threads, floating-point
-- arithmetic, the calendar, the printing of floating-point numbers, what comes of an `int` sum that
-- overflows (Loadgen/Scenario), the conversion of UTF-8 text to wide text, and what Windows reports of
-- clicks, times and connections.
-- What a service does to its state happens at once, between a request and its response: the counter is
-- atomic, and the other state is the clock, which is read once in a request and stands still in a
-- model run.
--
-- Not modelled: sockets, threads, signals and timers of the operating system and of Boost.Asio, which give
-- the events; the parsing of command lines; at which event a handler throws (the two main functions take that one
-- does so as the end of their run, and end as the threads there make them); the text that `std::terminate`
-- may write; the destructors of the server; the waits of the UI client, the framework calls of its start, and
-- what its threads do once the dialog is closed.
pub mod Common
pub mod Protocol
pub mod Json
pub mod Router
pub mod Services
pub mod Session
pub mod Server
pub mod Loadgen
pub mod Ui
pub mod Tests
