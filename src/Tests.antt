-- ===== src/Tests.antt =====
-- Concrete values for the tests and examples: a platform, the services' first state, and requests.
pub mod Wire
pub mod Sessions
pub mod Shared
pub mod Replies
pub mod Clients
pub mod Orders
pub mod Desktops
pub mod Histories
pub mod Campaigns
pub mod Rounds
pub mod Late
pub mod Mains
pub mod Portfolio
use hs_financial_services.Common.{ℕ, true, ◌+◌, ◌-◌, ◌*◌, ◌/◌, ◌^◌, List, [], ◌∷◌}
use hs_financial_services.Common.Int.{pos, negsuc}
use hs_financial_services.Common.Text.{Bytes, codes}
use hs_financial_services.Common.Decimal.{to_string}
use hs_financial_services.Protocol.{Message, make, buy_order, ping, get_price_history}
use hs_financial_services.Services.{ServiceState}
use hs_financial_services.Services.History.{Platform}
use hs_financial_services.Services.Trade.{first_order}
use hs_financial_services.Ui.Socket.{Arrivals}
use hs_financial_services.Ui.Worker.{Desktop, Worker}

-- Whole numbers in place of floating-point ones.
abbrev pub whole_numbers : Platform
whole_numbers = record {
  Double = ℕ;
  decimal = λ m k. m / 10 ^ k;
  of_int = λ n. n;
  of_char = λ n. n;
  add = λ x y. x + y;
  sub = λ x y. x - y;
  mul = λ x y. x * y;
  sin = λ x. x;
  cos = λ x. x;
  abs = λ x. x;
  max = λ x y. x + (y - x);
  min = λ x y. x - (x - y);
  to_int = λ x. x;
  print_double = to_string;
  format_date = λ day_t. elim day_t [ pos n ↦ to_string n | negsuc n ↦ b'-' ∷ to_string (n + 1) ];
  overflowed = λ request_json. 0;
}

abbrev pub at_start : ServiceState
at_start = record { order_counter = first_order; clock = 1000000000 }

-- Every byte is a unit of the wide text, and a time is printed in microseconds.
abbrev pub plain_text : Desktop
plain_text = record { multi_byte_to_wide = λ s. s; print_ms = to_string; parse_int = λ s. pos 9000 }

-- A connected worker; a send takes all it is given, and an exchange takes 250 microseconds.
abbrev pub worker_with : Arrivals → Worker
worker_with arrivals = record {
  socket_open = true;
  connected = true;
  accepts = 1000 ∷ 1000 ∷ [];
  arrivals = arrivals;
  sent = [];
  log = [];
  ping_seq = 0;
  clock = 1000 ∷ 1250 ∷ [];
  tick_count = 77;
}

abbrev pub buy_json : Bytes
buy_json = codes "{\"symbol\":\"AAPL\",\"qty\":100}"

abbrev pub buy_request : Message
buy_request = make buy_order buy_json 0

abbrev pub ping_request : Message
ping_request = make ping [] 0

abbrev pub history_json : Bytes
history_json = codes "{\"symbol\":\"MSFT\",\"days\":2}"
