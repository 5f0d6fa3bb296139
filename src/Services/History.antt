-- ===== src/Services/History.antt =====
-- handle_get_price_history (server/src/services/price_history_service.cpp).
pub mod Days
use hs_financial_services.Common.{
  ℕ, zero, suc, ◌+◌, ◌-◌, ◌*◌, Bool, ◌||◌, Option, none, some, List, [], ◌∷◌, ◌++◌, ltb, ◌==◌,
  if◌then◌else◌, Result, ok,
}
use hs_financial_services.Common.Int.{ℤ, sub_nat}
use hs_financial_services.Common.Text.{Bytes, codes}
use hs_financial_services.Common.Decimal.{to_string}
use hs_financial_services.Json.{extract_string, extract_int}
use hs_financial_services.Router.{ServiceHandler}
use hs_financial_services.Services.{ServiceState, default_to}

-- The floating-point arithmetic and the calendar of the C++ library, which the code calls: `double`
-- with its operations, constants and printing, and the date of a time as `gmtime` and `strftime`
-- print it, also of a time before 1970. `decimal m k` is the constant `m / 10 ^ k`, and `of_char`
-- converts a `char`, which may be signed. `overflowed` is what `extract_int` returns for a request on which its `int` overflows: the
-- language leaves that open, so it is any number (0 stands for the negative ones also, as the caller
-- treats these alike).
pub record Platform : Type 1 where
  pub Double : Type 0
  pub decimal : ℕ → ℕ → Double
  pub of_int : ℕ → Double
  pub of_char : ℕ → Double
  pub add : Double → Double → Double
  pub sub : Double → Double → Double
  pub mul : Double → Double → Double
  pub sin : Double → Double
  pub cos : Double → Double
  pub abs : Double → Double
  pub max : Double → Double → Double
  pub min : Double → Double → Double
  pub to_int : Double → ℕ
  pub print_double : Double → Bytes
  pub format_date : ℤ → Bytes
  pub overflowed : Bytes → ℕ

-- `days <= 0 || days > 365` gives 30; the number that is read is never negative.
unfoldable pub clamp_days : ℕ → ℕ
clamp_days days = if (days == 0) || ltb 365 days then 30 else days

abbrev pub secs_per_day : ℕ
secs_per_day = 86400

-- The time of a day, its prices and its volume.
pub record Day (p : Platform) : Type 0 where
  pub day_t : ℤ
  pub open_ : p.Double
  pub high : p.Double
  pub low : p.Double
  pub close_ : p.Double
  pub vol : ℕ

module _ (p : Platform) where
  open p use {
    Double, decimal, of_int, of_char, overflowed, add, sub, mul, sin, cos, abs, max, min, to_int,
    print_double, format_date,
  }

  -- `base_price` after the loop over the characters of the symbol.
  unfoldable pub walk_base : Double → Bytes → Double
  walk_base base_price [] = base_price
  walk_base base_price (c ∷ symbol) =
      walk_base (add base_price (mul (of_char c) (decimal 1 2))) symbol

  -- What a round of the loop computes for day `i`.
  abbrev pub day : Double → ℕ → ℕ → Day p
  day base_price now i =
      let delta = mul (sin (mul (of_int i) (decimal 42 2))) (decimal 2 0) in
      let open_ = add base_price delta in
      let close_ = add open_ (mul (cos (mul (of_int i) (decimal 31 2))) (decimal 15 1)) in
      record {
        day_t = sub_nat now (i * secs_per_day);
        open_ = open_;
        high =
            add (max open_ close_) (mul (abs (sin (mul (of_int i) (decimal 7 1)))) (decimal 8 1));
        low = sub (min open_ close_) (mul (abs (cos (mul (of_int i) (decimal 7 1)))) (decimal 8 1));
        close_ = close_;
        vol = 20000000 + to_int (abs (mul (sin (of_int i)) (decimal 15000000 0)));
      }

  -- The object that it prints, without the comma before it.
  abbrev pub day_text : Day p → Bytes
  day_text d =
      codes "{\"date\":\""
      ++ (format_date d.day_t
          ++ (codes "\",\"open\":"
              ++ (print_double d.open_
                  ++ (codes ",\"high\":"
                      ++ (print_double d.high
                          ++ (codes ",\"low\":"
                              ++ (print_double d.low
                                  ++ (codes ",\"close\":"
                                      ++ (print_double d.close_
                                          ++ (codes ",\"volume\":"
                                              ++ (to_string d.vol ++ codes "}")))))))))))

  unfoldable pub candle : Double → ℕ → ℕ → Bytes
  candle base_price now i = day_text (day base_price now i)

  -- The rounds for `i = n - 1` down to 0 of a loop that began at `days - 1`.
  unfoldable pub candles : Double → ℕ → ℕ → ℕ → Bytes → Bytes
  unfolding candle
  candles base_price now days zero out = out
  candles base_price now days (suc i) out =
      candles base_price now days i
        (out ++ ((if ltb i (days - 1) then codes "," else []) ++ candle base_price now i))

  unfoldable pub history_text : Bytes → ℕ → ℕ → Bytes
  unfolding candles walk_base
  history_text symbol days now =
      candles (walk_base (decimal 1825 1) symbol) now days days
        (codes "{\"symbol\":\"" ++ (symbol ++ codes "\",\"history\":["))
      ++ codes "]}"

  -- The number that the request asks for, with the default 30.
  unfoldable pub asked_days : Bytes → ℕ
  asked_days request_json = elim (extract_int request_json (codes "days") 30) [
    | none ↦ overflowed request_json
    | some days ↦ days
  ]

  unfoldable pub handle_get_price_history : ServiceHandler ServiceState
  unfolding history_text clamp_days asked_days
  handle_get_price_history request_json s = (
    ok (
        history_text (default_to (codes "AAPL") (extract_string request_json (codes "symbol")))
          (clamp_days (asked_days request_json)) s.clock),
    s,
  )
