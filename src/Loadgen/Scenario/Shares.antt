-- ===== src/Loadgen/Scenario/Shares.antt =====
-- The shares of the request types.
use hs_financial_services.Common.{
  ℕ, zero, suc, ◌+◌, ◌-◌, ◌%◌, ◌^◌, ◌<◌, ◌≡◌, refl, ap, ◌∙◌, Bool, true, false, List, [], ◌∷◌, ltb,
  if◌then◌else◌, get_or, arith,
}
use hs_financial_services.Common.Int.{ℤ, pos, below}
use hs_financial_services.Protocol.{
  MessageType, Message, make, sql_query, buy_order, sell_order, get_position, get_price_history,
}
use hs_financial_services.Loadgen.Scenario.{
  ScenarioConfig, Machine, next_rand, total_weight, at_least_one, add_int, next_request,
}

-- `n` places for a type, before others.
abbrev pub places : ℕ → MessageType → List MessageType → List MessageType
places zero type rest = rest
places (suc n) type rest = type ∷ places n type rest

get_or-places :
    (n : ℕ) (type : MessageType) (rest : List MessageType) (i : ℕ)
    → get_or (places n type rest) i 0 ≡ (if ltb i n then type else get_or rest (i - n) 0)
get_or-places zero type rest i =
    let e : ltb i 0 ≡ false = ground arith in rw e (ap (λ k. get_or rest k 0) (omega arith))
get_or-places (suc n) type rest zero = let e : ltb 0 (suc n) ≡ true = ground arith in rw e refl
get_or-places (suc n) type rest (suc i) =
    let same_test : ltb (suc i) (suc n) ≡ ltb i n = ground arith in
    let same_place : suc i - suc n ≡ i - n = omega arith in
    get_or-places n type rest i ∙ rw (same_test, same_place) refl

-- The places of the five types, in the order of the code's tests.
abbrev pub table : ℕ → ℕ → ℕ → ℕ → ℕ → List MessageType
table sql buy sell position history = places sql sql_query (
    places buy buy_order
      (places sell sell_order (places position get_position (places history get_price_history []))))

abbrev pub weights : ℕ → ℕ → ℕ → ℕ → ℕ → ScenarioConfig
weights sql buy sell position history = record {
  weight_sql = pos sql;
  weight_buy = pos buy;
  weight_sell = pos sell;
  weight_position = pos position;
  weight_price_history = pos history;
}

-- The tests of the code, for the place that the random number picks.
abbrev tested : ℕ → ℕ → ℕ → ℕ → ℕ → MessageType
tested sql buy sell position pick =
    if ltb pick sql
    then sql_query
    else if ltb pick (sql + buy)
    then buy_order
    else if ltb pick (sql + buy + sell)
    then sell_order
    else if ltb pick (sql + buy + sell + position)
    then get_position
    else get_price_history

tested-table :
    (sql buy sell position history pick : ℕ)
    → pick < sql + buy + sell + position + history
    → tested sql buy sell position pick ≡ get_or (table sql buy sell position history) pick 0
tested-table sql buy sell position history pick h =
    rw
      (
        get_or-places sql sql_query
            (places buy buy_order (
              places sell sell_order
                (places position get_position (places history get_price_history []))))
            pick,
        get_or-places buy buy_order
            (places sell sell_order
              (places position get_position (places history get_price_history [])))
            (pick - sql),
        get_or-places sell sell_order
            (places position get_position (places history get_price_history [])) (pick - sql - buy),
        get_or-places position get_position (places history get_price_history [])
            (pick - sql - buy - sell),
        get_or-places history get_price_history [] (pick - sql - buy - sell - position),
      )
      (ground arith)

at_least_one-pos : (n : ℕ) → 0 < n → at_least_one (pos n) ≡ n
at_least_one-pos zero h = absurd (omega arith)
at_least_one-pos (suc n) h = refl

-- The type of the message that the tests choose.
type_of :
    (b b' b'' b''' : Bool) (m m' m'' m''' m'''' : Message × ℕ)
    → (if b
        then m
        else if b'
        then m'
        else if b''
        then m''
        else if b'''
        then m'''
        else m'''').0.header.message_type
      ≡ (if b
          then m.0.header.message_type
          else if b'
          then m'.0.header.message_type
          else if b''
          then m''.0.header.message_type
          else if b'''
          then m'''.0.header.message_type
          else m''''.0.header.message_type)
type_of true b' b'' b''' m m' m'' m''' m'''' = refl
type_of false true b'' b''' m m' m'' m''' m'''' = refl
type_of false false true b''' m m' m'' m''' m'''' = refl
type_of false false false true m m' m'' m''' m'''' = refl
type_of false false false false m m' m'' m''' m'''' = refl

-- The tests of the code, with the thresholds that it adds up.
abbrev tested_at : ℤ → ℤ → ℤ → ℤ → ℕ → MessageType
tested_at for_sql for_buy for_sell for_position pick =
    if below pick for_sql
    then sql_query
    else if below pick for_buy
    then buy_order
    else if below pick for_sell
    then sell_order
    else if below pick for_position
    then get_position
    else get_price_history

add_int-pos :
    (machine : Machine) (m n : ℕ) → m + n < 2 ^ 31 → add_int machine (pos m) (pos n) ≡ pos (m + n)
add_int-pos machine m n h = let e : ltb (m + n) (2 ^ 31) ≡ true = ground arith in rw e refl

module _ (machine : Machine) (sql buy sell position history rng : ℕ) where
  abbrev for_buy : ℤ
  for_buy = add_int machine (pos sql) (pos buy)

  abbrev for_sell : ℤ
  for_sell = add_int machine for_buy (pos sell)

  abbrev for_position : ℤ
  for_position = add_int machine for_sell (pos position)

  for_buy-pos : sql + buy < 2 ^ 31 → for_buy ≡ pos (sql + buy)
  for_buy-pos h = add_int-pos machine sql buy h

  for_sell-pos : sql + buy + sell < 2 ^ 31 → for_sell ≡ pos (sql + buy + sell)
  for_sell-pos h =
      ap (λ t. add_int machine t (pos sell)) (for_buy-pos (omega arith))
      ∙ add_int-pos machine (sql + buy) sell h

  for_position-pos :
      sql + buy + sell + position < 2 ^ 31 → for_position ≡ pos (sql + buy + sell + position)
  for_position-pos h =
      ap (λ t. add_int machine t (pos position)) (for_sell-pos (omega arith))
      ∙ add_int-pos machine (sql + buy + sell) position h

  total_weight-sum :
      0 < sql + buy + sell + position + history
      → sql + buy + sell + position + history < 2 ^ 31
      → total_weight machine (weights sql buy sell position history)
        ≡ sql + buy + sell + position + history
  unfolding total_weight
  total_weight-sum h h' =
      ap (λ t. at_least_one (add_int machine t (pos history))) (for_position-pos (omega arith))
      ∙ ap at_least_one (add_int-pos machine (sql + buy + sell + position) history h')
      ∙ at_least_one-pos (sql + buy + sell + position + history) h

  tested-at :
      (pick : ℕ)
      → sql + buy + sell + position < 2 ^ 31
      → tested_at (pos sql) for_buy for_sell for_position pick ≡ tested sql buy sell position pick
  tested-at pick h =
      ap (λ t. tested_at (pos sql) t for_sell for_position pick) (for_buy-pos (omega arith))
      ∙ ap (λ t. tested_at (pos sql) (pos (sql + buy)) t for_position pick)
          (for_sell-pos (omega arith))
      ∙ ap (λ t. tested_at (pos sql) (pos (sql + buy)) (pos (sql + buy + sell)) t pick)
          (for_position-pos h)

  -- For weights that are not negative and not all 0, with a sum that fits an `int`, the type of the
  -- next request is the one at the place that the random number picks, modulo their sum, in a table
  -- that has as many places of each type as its weight says.
  pub next_request-share :
      0 < sql + buy + sell + position + history
      → sql + buy + sell + position + history < 2 ^ 31
      → (next_request machine (weights sql buy sell position history) rng).0.header.message_type
        ≡ get_or
            (table sql buy sell position history)
            (next_rand rng % (sql + buy + sell + position + history))
            0
  unfolding next_request make
  next_request-share h h' =
      let total = sql + buy + sell + position + history in
      let pick = next_rand rng % total in
      let picked = next_rand rng % total_weight machine (weights sql buy sell position history) in
      let typed : (next_request machine (weights sql buy sell position history)
            rng).0.header.message_type
          ≡ tested_at (pos sql) for_buy for_sell for_position picked =
        search type_of in
      typed
      ∙ tested-at picked (omega arith)
      ∙ ap (λ t. tested sql buy sell position (next_rand rng % t)) (total_weight-sum h h')
      ∙ tested-table sql buy sell position history pick (grind arith)
