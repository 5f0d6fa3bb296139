-- ===== src/Loadgen/Scenario/Requests.antt =====
-- The requests of a client, as the server reads them.
use hs_financial_services.Common.{
  ℕ, zero, suc, ◌+◌, ◌%◌, ◌<◌, ◌≤◌, ◌≡◌, ◌≢◌, refl, ap, sym, ◌∙◌, ◌⊎◌, inl, inr, Bool, true, false,
  List, [], ◌∷◌, ◌++◌, if◌then◌else◌, get_or, length, All-append, append_assoc, arith, some, subst,
}
use hs_financial_services.Common.Text.{Bytes, codes, Lacks}
use hs_financial_services.Common.Decimal.{to_string, to_string-IsDigits, value-to_string, value}
use hs_financial_services.Json.{quote, extract_string, extract_number, extract_int}
use hs_financial_services.Json.Object.{Field, str, raw, object, AllFields, IsNumber}
use hs_financial_services.Json.Object.Lookup.{extract_string-object, extract_number-object}
use hs_financial_services.Json.Object.Values.{extract_int-object}
use hs_financial_services.Protocol.{
  Message, MessageType, make, sql_query, buy_order, sell_order, get_position, get_price_history,
}
use hs_financial_services.Services.History.Days.{IsDigits-IsNumber, int_or-digits, read_int-value}
use hs_financial_services.Loadgen.Scenario.{
  ScenarioConfig, Machine, symbols, sql_payload, order_payload, history_payload, random_order,
  next_request, next_rand,
}

-- What the server's services read in a request of the type: the query, or the symbol, quantity,
-- price and account, or the account, or the symbol and the days.
pub data Understood (machine : Machine) (m : Message) : Type 0 where
  sql :
      (sym : Bytes)
      → m.header.message_type ≡ sql_query
      → extract_string m.payload (codes "sql")
        ≡ codes "SELECT symbol, price FROM quotes WHERE symbol='" ++ (sym ++ codes "'")
      → Understood machine m
  order :
      (sym : Bytes) (qty cents : ℕ)
      → (m.header.message_type ≡ buy_order) ⊎ (m.header.message_type ≡ sell_order)
      → sym ≢ []
      → 10 ≤ qty
      → qty ≤ 500
      → cents < 20000
      → extract_string m.payload (codes "symbol") ≡ sym
      → extract_number m.payload (codes "qty") ≡ to_string qty
      → extract_number m.payload (codes "price") ≡ machine.print_price cents
      → extract_string m.payload (codes "account") ≡ codes "ACC-001"
      → Understood machine m
  position :
      m.header.message_type ≡ get_position
      → extract_string m.payload (codes "account") ≡ codes "ACC-001"
      → Understood machine m
  history :
      (sym : Bytes) (days : ℕ)
      → m.header.message_type ≡ get_price_history
      → sym ≢ []
      → 7 ≤ days
      → days ≤ 30
      → extract_string m.payload (codes "symbol") ≡ sym
      → extract_int m.payload (codes "days") 30 ≡ some days
      → Understood machine m

IsSymbol : Bytes → Type 0
IsSymbol sym = Lacks quote sym × (sym ≢ []) × (length sym ≤ 5)

get_or-symbols : (i : ℕ) → i < 5 → IsSymbol (get_or symbols i [])
unfolding IsSymbol
get_or-symbols zero h = ground arith
get_or-symbols (suc zero) h = ground arith
get_or-symbols (suc (suc zero)) h = ground arith
get_or-symbols (suc (suc (suc zero))) h = ground arith
get_or-symbols (suc (suc (suc (suc zero)))) h = ground arith
get_or-symbols (suc (suc (suc (suc (suc i))))) h = absurd (omega arith)

-- The members of an order.
abbrev order_fields : ℕ → Bytes → List Field
order_fields qty price =
    raw (codes "qty") (to_string qty)
    ∷ raw (codes "price") price
    ∷ str (codes "account") (codes "ACC-001")
    ∷ []

module _ (machine : Machine) (prints : (k : ℕ) → k < 20000 → IsNumber (machine.print_price k))
    (symbol : Bytes) (is_symbol : IsSymbol symbol) where
  order-Understood :
      (type : MessageType) (qty cents : ℕ)
      → (type ≡ buy_order) ⊎ (type ≡ sell_order)
      → 10 ≤ qty
      → qty ≤ 500
      → cents < 20000
      → Understood machine (make type (order_payload symbol qty (machine.print_price cents)) 0)
  unfolding IsSymbol make
  order-Understood type qty cents t lo hi range =
      let first = str (codes "symbol") symbol in
      let rest = order_fields qty (machine.print_price cents) in
      let fields : AllFields (first ∷ rest) = (
        (ground arith, is_symbol.0),
        (
          (ground arith, IsDigits-IsNumber _ (to_string-IsDigits qty)),
          ((ground arith, prints cents range), ground arith),
        ),
      ) in
      order symbol qty cents t (is_symbol.1) lo hi range
        (extract_string-object (codes "symbol") first rest (ground arith) fields)
        (extract_number-object (codes "qty") first rest (ground arith) fields)
        (extract_number-object (codes "price") first rest (ground arith) fields)
        (extract_string-object (codes "account") first rest (ground arith) fields)

  history-Understood :
      (days : ℕ)
      → 7 ≤ days
      → days ≤ 30
      → Understood machine (make get_price_history (history_payload symbol days) 0)
  unfolding IsSymbol make
  history-Understood days lo hi =
      let first = str (codes "symbol") symbol in
      let rest = raw (codes "days") (to_string days) ∷ [] in
      let digits = to_string-IsDigits days in
      let fields : AllFields (first ∷ rest) =
        ((ground arith, is_symbol.0), ((ground arith, IsDigits-IsNumber _ digits), tt)) in
      let spells = value-to_string days (omega arith) in
      let nonempty : to_string days ≢ [] = λ e.
        let spelt : value 0 [] ≡ days = subst (λ t. value 0 t ≡ days) e spells in omega arith in
      history symbol days refl is_symbol.1 lo hi
        (extract_string-object (codes "symbol") first rest (ground arith) fields)
        (extract_int-object (codes "days") 30 first rest (ground arith) fields
          ∙ int_or-digits 30 (to_string days) nonempty digits
          ∙ read_int-value (to_string days) 0 digits (omega (arith, spells))
          ∙ ap some spells)

  sql-Understood : Understood machine (make sql_query (sql_payload symbol) 0)
  unfolding IsSymbol make
  sql-Understood =
      let text = codes "SELECT symbol, price FROM quotes WHERE symbol='" ++ (symbol ++ codes "'") in
      let tail : Lacks quote (symbol ++ codes "'") =
        All-append (λ b. b ≢ quote) symbol (codes "'") is_symbol.0 (ground arith) in
      let clean : Lacks quote text = ground (arith, tail) in
      let same : sql_payload symbol ≡ object (str (codes "sql") text) [] =
        ap (λ t. codes "{\"sql\":\"SELECT symbol, price FROM quotes WHERE symbol='" ++ t)
          (sym (append_assoc symbol (codes "'") (codes "\"}"))) in
      sql symbol refl (
        rw same (
          extract_string-object (codes "sql") (str (codes "sql") text) [] (ground arith)
            ((ground arith, clean), tt)))

position-Understood :
    (machine : Machine)
    → Understood machine (make get_position (codes "{\"account\":\"ACC-001\"}") 0)
unfolding make
position-Understood machine =
    let account = str (codes "account") (codes "ACC-001") in
    position refl (extract_string-object (codes "account") account [] (ground arith) (ground arith))

either {ℓ κ} :
    {A : Type ℓ} (P : A → Type κ) (b : Bool) (x y : A) → P x → P y → P (if b then x else y)
either P true x y hx hy = hx
either P false x y hx hy = hy

-- Whatever the scenario's weights and the state of the generator, if each of the 20000 prices is printed
-- as a number, the request that a client makes is one that the service of its type reads back: the
-- query for a symbol, or an order with a symbol, a quantity from 10 to 500, a price and the account, or
-- the account, or a symbol and 7 to 30 days. (A sum of weights out of the range of `int` is undefined;
-- here it is taken to give a number, whichever.)
pub next_request-Understood :
    (machine : Machine) (c : ScenarioConfig) (rng_state : ℕ)
    → ((k : ℕ) → k < 20000 → IsNumber (machine.print_price k))
    → Understood machine (next_request machine c rng_state).0
unfolding next_request random_order
next_request-Understood machine c rng_state prints =
    let Q = λ (q : Message × ℕ). Understood machine q.0 in
    let rng2 = next_rand (next_rand rng_state) in
    let rng3 = next_rand rng2 in
    let is_symbol = get_or-symbols (rng2 % 5) (omega arith) in
    let ordered = λ (type : MessageType) (t : (type ≡ buy_order) ⊎ (type ≡ sell_order)).
      order-Understood machine prints _ is_symbol type (10 + rng3 % 491) (next_rand rng3 % 20000) t
        (omega arith) (omega arith) (omega arith) in
    either Q _ _ _ (sql-Understood machine prints _ is_symbol) (
      either Q _ _ _ (ordered buy_order (inl refl)) (
        either Q _ _ _ (ordered sell_order (inr refl)) (
          either Q _ _ _ (position-Understood machine) (
            history-Understood machine prints _ is_symbol (7 + rng3 % 24) (omega arith)
              (omega arith)))))
