-- ===== src/Loadgen/Scenario.antt =====
-- ScenarioConfig and ClientSession::next_request (load_generator/src/client_session.cpp).
pub mod Requests
pub mod Shares
use hs_financial_services.Common.{
  ℕ, zero, suc, Bool, ltb, ◌+◌, ◌*◌, ◌%◌, ◌^◌, List, [], ◌∷◌, ◌++◌, if◌then◌else◌, get_or, length,
}
use hs_financial_services.Common.Int.{ℤ, pos, negsuc, ◌+ℤ◌, below}
use hs_financial_services.Common.Text.{Bytes, codes}
use hs_financial_services.Common.Decimal.{to_string}
use hs_financial_services.Protocol.{
  Message, make, sql_query, buy_order, sell_order, get_position, get_price_history,
}

pub record ScenarioConfig : Type 0 where
  pub weight_sql : ℤ
  pub weight_buy : ℤ
  pub weight_sell : ℤ
  pub weight_position : ℤ
  pub weight_price_history : ℤ

-- The member initialisers.
abbrev pub default_scenario : ScenarioConfig
default_scenario = record {
  weight_sql = pos 20;
  weight_buy = pos 25;
  weight_sell = pos 25;
  weight_position = pos 20;
  weight_price_history = pos 10;
}

-- The initial state of a client's generator, from its number.
unfoldable pub seed : ℕ → ℕ
seed client_id = (client_id * 2654435761 + 1) % 2 ^ 64

-- The generator's next state, which is also the random number.
unfoldable pub next_rand : ℕ → ℕ
next_rand rng_state = (rng_state * 6364136223846793005 + 1442695040888963407) % 2 ^ 64

-- `if (total <= 0) total = 1;`
abbrev at_least_one : ℤ → ℕ
at_least_one (pos zero) = 1
at_least_one (pos (suc n)) = suc n
at_least_one (negsuc n) = 1

abbrev pub symbols : List Bytes
symbols = codes "AAPL" ∷ codes "MSFT" ∷ codes "GOOGL" ∷ codes "AMZN" ∷ codes "TSLA" ∷ []

abbrev pub sql_payload : Bytes → Bytes
sql_payload sym =
    codes "{\"sql\":\"SELECT symbol, price FROM quotes WHERE symbol='" ++ (sym ++ codes "'\"}")

abbrev pub order_payload : Bytes → ℕ → Bytes → Bytes
order_payload sym qty price =
    codes "{\"symbol\":\""
    ++ (sym
        ++ (codes "\",\"qty\":"
            ++ (to_string qty
                ++ (codes ",\"price\":" ++ (price ++ codes ",\"account\":\"ACC-001\"}")))))

abbrev pub history_payload : Bytes → ℕ → Bytes
history_payload sym days =
    codes "{\"symbol\":\"" ++ (sym ++ (codes "\",\"days\":" ++ (to_string days ++ codes "}")))

-- What the language leaves to the machine: what a stream prints for the `double` `100.0 + k / 100.0`,
-- and what comes of a sum of two `int`s that is out of their range, which is undefined.
pub record Machine : Type 0 where
  pub print_price : ℕ → Bytes
  pub overflowed : ℤ → ℤ → ℤ

abbrev is_int : ℤ → Bool
is_int (pos n) = ltb n (2 ^ 31)
is_int (negsuc n) = ltb n (2 ^ 31)

-- The sum of two `int`s.
abbrev pub add_int : Machine → ℤ → ℤ → ℤ
add_int machine x y = let sum = x +ℤ y in if is_int sum then sum else machine.overflowed x y

module _ (machine : Machine) where
  unfoldable pub total_weight : ScenarioConfig → ℕ
  total_weight c = at_least_one (
      add_int machine
        (add_int machine (add_int machine (add_int machine c.weight_sql c.weight_buy) c.weight_sell)
          c.weight_position)
        c.weight_price_history)

  -- The payload of a buy or a sell order, and the generator's state behind it.
  unfoldable pub random_order : Bytes → ℕ → Bytes × ℕ
  unfolding next_rand
  random_order sym rng =
      let rng1 = next_rand rng in
      let qty = 10 + rng1 % 491 in
      let rng2 = next_rand rng1 in
      (order_payload sym qty (machine.print_price (rng2 % 20000)), rng2)

  -- The request, and the generator's state behind it.
  unfoldable pub next_request : ScenarioConfig → ℕ → Message × ℕ
  unfolding next_rand total_weight random_order make
  next_request c rng_state =
      let rng1 = next_rand rng_state in
      let pick = rng1 % total_weight c in
      let rng2 = next_rand rng1 in
      let sym = get_or symbols (rng2 % length symbols) [] in
      let for_sql = c.weight_sql in
      let for_buy = add_int machine for_sql c.weight_buy in
      let for_sell = add_int machine for_buy c.weight_sell in
      let for_position = add_int machine for_sell c.weight_position in
      let (order, rng4) = random_order sym rng2 in
      let rng3 = next_rand rng2 in
      let days = 7 + rng3 % 24 in
      if below pick for_sql
      then (make sql_query (sql_payload sym) 0, rng2)
      else if below pick for_buy
      then (make buy_order order 0, rng4)
      else if below pick for_sell
      then (make sell_order order 0, rng4)
      else if below pick for_position
      then (make get_position (codes "{\"account\":\"ACC-001\"}") 0, rng2)
      else (make get_price_history (history_payload sym days) 0, rng3)
