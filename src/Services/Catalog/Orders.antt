-- ===== src/Services/Catalog/Orders.antt =====
-- The numbers of the orders that one server acknowledges.
use hs_financial_services.Common.{
  ℕ, ◌+◌, ◌%◌, ◌^◌, ◌<◌, ◌≤◌, ◌≡◌, ◌≢◌, refl, ap, sym, ◌∙◌, ◌||◌, none, some, Option, List, [], ◌∷◌,
  ◌++◌, ◌==◌, if◌then◌else◌, length, arith, drop, inl, inr, ◌⊎◌,
}
use hs_financial_services.Common.Text.{Bytes, codes, Lacks}
use hs_financial_services.Common.Decimal.{to_string, to_string-injective}
use hs_financial_services.Json.{quote, extract_field}
use hs_financial_services.Protocol.{MessageType, Message, buy_order, sell_order}
use hs_financial_services.Router.{Router, ServiceHandler, dispatch, lookup, respond}
use hs_financial_services.Protocol.{make}
use hs_financial_services.Router.Dispatch.{dispatch-found}
use hs_financial_services.Services.{ServiceState}
use hs_financial_services.Services.Sql.{handle_sql_query}
use hs_financial_services.Services.Position.{handle_get_position}
use hs_financial_services.Services.Trade.{build_order_ack, handle_buy_order, handle_sell_order}
use hs_financial_services.Services.Trade.Ack.{build_order_ack-Reads}
use hs_financial_services.Services.History.{Platform, handle_get_price_history}
use hs_financial_services.Services.Catalog.{handle_ping}
use hs_financial_services.Services.Catalog.Table.{service, server_router, register_services-empty}
use hs_financial_services.Session.Serve.{serve}

-- The counter behind a request of a type.
abbrev counts : MessageType → ℕ → ℕ
counts type n = if (type == buy_order) || (type == sell_order) then (n + 1) % 2 ^ 64 else n

handle_ping-order_counter : (payload : Bytes) (s : ServiceState) → (handle_ping payload s).1 ≡ s
unfolding handle_ping
handle_ping-order_counter [] s = refl
handle_ping-order_counter (c ∷ payload) s = refl

-- The counter behind what a handler was looked up for.
abbrev state_after : Option (ServiceHandler ServiceState) → Bytes → ServiceState → ServiceState
state_after none payload s = s
state_after (some handler) payload s = (handler payload s).1

service-counts :
    (p : Platform) (type : MessageType) (payload : Bytes) (s : ServiceState)
    → (state_after (service p type) payload s).order_counter ≡ counts type s.order_counter
unfolding handle_sql_query handle_buy_order handle_sell_order handle_get_position
    handle_get_price_history
service-counts p type payload s = ground (arith, handle_ping-order_counter payload s)

dispatch-state_after :
    (r : Router ServiceState) (m : Message) (s : ServiceState)
    → (dispatch r m s).1 ≡ state_after (lookup m.header.message_type r) m.payload s
unfolding dispatch
dispatch-state_after r m s = ground arith

pub dispatch-order_counter :
    (p : Platform) (m : Message) (s : ServiceState)
    → (dispatch (server_router p) m s).1.order_counter
      ≡ counts m.header.message_type s.order_counter
dispatch-order_counter p m s =
    ap (λ q. q.order_counter) (dispatch-state_after (server_router p) m s)
    ∙ ap (λ o. (state_after o m.payload s).order_counter)
        ((register_services-empty p).1 m.header.message_type)
    ∙ service-counts p m.header.message_type m.payload s

serve-order_counter :
    (p : Platform) (ms : List Message) (s : ServiceState)
    → s.order_counter + length ms < 2 ^ 64
    → (s.order_counter ≤ (serve (server_router p) ms s).1.order_counter)
      × ((serve (server_router p) ms s).1.order_counter ≤ s.order_counter + length ms)
serve-order_counter p [] s h = omega arith
serve-order_counter p (m ∷ ms) s h =
    let s' = (dispatch (server_router p) m s).1 in
    let bound : (s.order_counter ≤ s'.order_counter) × (s'.order_counter ≤ s.order_counter + 1) =
      rw (dispatch-order_counter p m s) (ground arith) in
    let ih = serve-order_counter p ms s' (omega arith) in (omega arith, omega arith)

abbrev pub IsOrder : MessageType → Type 0
IsOrder type = (type ≡ buy_order) ⊎ (type ≡ sell_order)

-- The number that the client reads in an acknowledgement.
abbrev pub order_number : Message → Bytes
order_number response = extract_field response.payload (codes "order_id")

dispatch-side :
    (p : Platform) (m : Message) (s : ServiceState)
    → IsOrder m.header.message_type
    → (side : Bytes) × Lacks quote side
      × ((dispatch (server_router p) m s).0
          ≡ respond m.header.message_type (build_order_ack side m.payload s).0)
unfolding handle_buy_order handle_sell_order
dispatch-side p m s (inl e) =
    let found : service p m.header.message_type ≡ some handle_buy_order = rw e in
    (
      codes "BUY",
      ground arith,
      ap (λ q. q.0)
          (dispatch-found (server_router p) m s handle_buy_order
            ((register_services-empty p).1 m.header.message_type ∙ found)),
    )
dispatch-side p m s (inr e) =
    let found : service p m.header.message_type ≡ some handle_sell_order = rw e in
    (
      codes "SELL",
      ground arith,
      ap (λ q. q.0)
          (dispatch-found (server_router p) m s handle_sell_order
            ((register_services-empty p).1 m.header.message_type ∙ found)),
    )

counts-order : (type n : ℕ) → IsOrder type → n + 1 < 2 ^ 64 → counts type n ≡ n + 1
counts-order type n h fits = ground arith

order_number-dispatch :
    (p : Platform) (m : Message) (s : ServiceState)
    → IsOrder m.header.message_type
    → order_number (dispatch (server_router p) m s).0 ≡ codes "ORD-" ++ to_string s.order_counter
unfolding respond make
order_number-dispatch p m s h =
    let (side, clean, e) = dispatch-side p m s h in
    let (ack, e', reads) = build_order_ack-Reads side m.payload s clean in
    rw (e, e') reads.reads_order_id

-- Two orders of one server never get the same number: whatever requests come between them, valid or
-- not, and on whichever connections, the numbers that the client reads in the two acknowledgements
-- differ, as long as the 64-bit counter does not wrap.
pub order_number-distinct :
    (p : Platform) (first : Message) (between : List Message) (second : Message) (s : ServiceState)
    → IsOrder first.header.message_type
    → IsOrder second.header.message_type
    → s.order_counter + length between + 1 < 2 ^ 64
    → let r = server_router p in
      let s' = (dispatch r first s).1 in
      let s'' = (serve r between s').1 in
      order_number (dispatch r first s).0 ≢ order_number (dispatch r second s'').0
order_number-distinct p first between second s h h' fits same =
    let r = server_router p in
    let s' = (dispatch r first s).1 in
    let s'' = (serve r between s').1 in
    let up : s'.order_counter ≡ s.order_counter + 1 =
      dispatch-order_counter p first s
      ∙ counts-order first.header.message_type s.order_counter h (omega arith) in
    let more = serve-order_counter p between s' (omega arith) in
    let texts : to_string s.order_counter ≡ to_string s''.order_counter =
      ap (drop 4)
        (sym (order_number-dispatch p first s h) ∙ same ∙ order_number-dispatch p second s'' h') in
    omega (
      arith,
      to_string-injective s.order_counter s''.order_counter (omega arith) (omega arith) texts,
    )
