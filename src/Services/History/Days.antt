-- ===== src/Services/History/Days.antt =====
-- The days that a price history covers, and the text of its rounds.
use hs_financial_services.Common.{
  ℕ, zero, suc, ◌+◌, ◌-◌, ◌*◌, ◌^◌, ◌≤◌, ◌<◌, ◌≡◌, ◌≢◌, refl, ap, sym, ◌∙◌, true, false, some, List,
  [], ◌∷◌, ◌++◌, append_assoc, append-nil, ltb, ok, arith, length,
}
use hs_financial_services.Common.Text.{Bytes, codes, Lacks}
use hs_financial_services.Common.Decimal.{value, IsDigits}
use hs_financial_services.Json.{
  quote, extract_int, extract_string, read_int, int_or, span, is_digit,
}
use hs_financial_services.Json.Object.{str, raw, object, AllFields, IsNumber}
use hs_financial_services.Json.Object.Lookup.{extract_string-object}
use hs_financial_services.Json.Object.Values.{extract_int-object}
use hs_financial_services.Services.{ServiceState, default_to, default_to-nonempty}
use hs_financial_services.Services.History.{
  Platform, clamp_days, candle, candles, asked_days, history_text, handle_get_price_history,
  walk_base,
}

-- Whatever a request asks for, from 1 to 365 days are taken, and a number in that range as it is.
pub clamp_days_bounds :
    (days : ℕ)
    → (1 ≤ clamp_days days)
      × (clamp_days days ≤ 365)
      × (1 ≤ days → days ≤ 365 → clamp_days days ≡ days)
unfolding clamp_days
clamp_days_bounds days = (ground arith, ground arith, λ h h'. ground arith)

value-grows : (prefix : ℕ) (digits : Bytes) → prefix ≤ value prefix digits
value-grows prefix [] = omega arith
value-grows prefix (d ∷ digits) =
    let longer = prefix * 10 + (d - b'0') in omega (arith, value-grows longer digits)

-- Digits that spell a number in the range of `int` are read as it, with no overflow on the way.
pub read_int-value :
    (v : Bytes) (n : ℕ) → IsDigits v → value n v < 2 ^ 31 → read_int v n ≡ some (value n v)
read_int-value [] n h fits = refl
read_int-value (c ∷ v) n h fits =
    let m = n * 10 + (c - b'0') in
    let small : ltb m (2 ^ 31) ≡ true = ground (arith, value-grows m v, fits) in
    rw (h.0, read_int) (rw (small, read_int) (read_int-value v m h.1 fits))

-- The objects of the days `n - 1` down to 0, and their text with commas between them.
module _ (p : Platform) where
  abbrev pub rounds : p.Double → ℕ → ℕ → List Bytes
  rounds base_price now zero = []
  rounds base_price now (suc i) = candle p base_price now i ∷ rounds base_price now i

  pub length-rounds : (base_price : p.Double) (now n : ℕ) → length (rounds base_price now n) ≡ n
  length-rounds base_price now zero = refl
  length-rounds base_price now (suc n) = ap suc (length-rounds base_price now n)

abbrev pub behind_commas : List Bytes → Bytes
behind_commas [] = []
behind_commas (x ∷ xs) = b',' ∷ (x ++ behind_commas xs)

abbrev pub joined : List Bytes → Bytes
joined [] = []
joined (x ∷ xs) = x ++ behind_commas xs

module _ (p : Platform) (base_price : p.Double) (now days : ℕ) where
  candles-behind :
      (i : ℕ) (out : Bytes)
      → i < days
      → candles p base_price now days i out ≡ out ++ behind_commas (rounds p base_price now i)
  unfolding candles
  candles-behind zero out h = sym (append-nil out)
  candles-behind (suc i) out h =
      let more : ltb i (days - 1) ≡ true = ground arith in
      rw more (
        candles-behind i (out ++ (b',' ∷ candle p base_price now i)) (omega arith)
        ∙ append_assoc out (b',' ∷ candle p base_price now i) _)

  candles-joined :
      (n : ℕ) (out : Bytes)
      → n ≡ days
      → candles p base_price now days n out ≡ out ++ joined (rounds p base_price now n)
  unfolding candles
  candles-joined zero out h = sym (append-nil out)
  candles-joined (suc i) out h =
      let first : ltb i (days - 1) ≡ false = ground arith in
      rw first (
        candles-behind i (out ++ candle p base_price now i) (omega arith)
        ∙ append_assoc out (candle p base_price now i) _)

-- The request of a client.
abbrev pub history_request : Bytes → Bytes → Bytes
history_request symbol days = object (str (codes "symbol") symbol) (raw (codes "days") days ∷ [])

pub IsDigits-IsNumber : (v : Bytes) → IsDigits v → IsNumber v
IsDigits-IsNumber [] h = tt
IsDigits-IsNumber (c ∷ v) h = (ground arith, IsDigits-IsNumber v h.1)

pub int_or-digits : (def : ℕ) (v : Bytes) → v ≢ [] → IsDigits v → int_or def v ≡ read_int v 0
int_or-digits def [] h h' = absurd (h refl)
int_or-digits def (c ∷ v) h h' =
    let more : span is_digit (c ∷ v) ≡ suc (span is_digit v) = rw (h'.0, span) in
    ap (λ n. elim n [ zero ↦ some def | suc n ↦ read_int (c ∷ v) 0 ]) more

module _ (symbol days : Bytes) (hs : symbol ≢ []) (hq : Lacks quote symbol) (hd : days ≢ [])
    (digits : IsDigits days) where
  history_request-AllFields : AllFields (str (codes "symbol") symbol ∷ raw (codes "days") days ∷ [])
  history_request-AllFields =
      ((ground arith, hq), ((ground arith, IsDigits-IsNumber days digits), tt))

  asked_symbol :
      default_to (codes "AAPL") (extract_string (history_request symbol days) (codes "symbol"))
      ≡ symbol
  asked_symbol =
      ap (default_to (codes "AAPL")) (
        extract_string-object (codes "symbol") (str (codes "symbol") symbol)
          (raw (codes "days") days ∷ []) (ground arith) history_request-AllFields)
      ∙ default_to-nonempty (codes "AAPL") symbol hs

  extract_int-days :
      value 0 days < 2 ^ 31
      → extract_int (history_request symbol days) (codes "days") 30 ≡ some (value 0 days)
  extract_int-days fits =
      extract_int-object (codes "days") 30 (str (codes "symbol") symbol)
        (raw (codes "days") days ∷ []) (ground arith) history_request-AllFields
      ∙ int_or-digits 30 days hd digits
      ∙ read_int-value days 0 digits fits

history_text-rounds :
    (p : Platform) (symbol : Bytes) (now n : ℕ)
    → history_text p symbol n now
      ≡ codes "{\"symbol\":\""
        ++ (symbol ++ codes "\",\"history\":[")
        ++ joined (rounds p (walk_base p (p.decimal 1825 1) symbol) now n)
        ++ codes "]}"
unfolding history_text
history_text-rounds p symbol now n =
    ap (λ text. text ++ codes "]}")
      (candles-joined p (walk_base p (p.decimal 1825 1) symbol) now n n
        (codes "{\"symbol\":\"" ++ (symbol ++ codes "\",\"history\":[")) refl)

-- A request for a symbol, which is not empty and has no quote in it, and for a number of days from
-- 1 to 365 in digits is answered with the objects of just so many days, the oldest first, with
-- commas between them, and the state stays as it was.
pub handle_get_price_history-rounds :
    (p : Platform) (symbol days : Bytes) (s : ServiceState)
    → symbol ≢ []
    → Lacks quote symbol
    → days ≢ []
    → IsDigits days
    → 1 ≤ value 0 days
    → value 0 days ≤ 365
    → handle_get_price_history p (history_request symbol days) s ≡ (
      ok (
          codes "{\"symbol\":\""
          ++ (symbol ++ codes "\",\"history\":[")
          ++ joined (rounds p (walk_base p (p.decimal 1825 1) symbol) s.clock (value 0 days))
          ++ codes "]}"),
      s,
    )
unfolding handle_get_price_history
handle_get_price_history-rounds p symbol days s hs hq hd digits lo hi =
    let n = value 0 days in
    let asked : asked_days p (history_request symbol days) ≡ n =
      rw (extract_int-days symbol days hs hq hd digits (omega arith), asked_days) in
    let kept : clamp_days n ≡ n = (clamp_days_bounds n).2 lo hi in
    rw (asked, kept, asked_symbol symbol days hs hq hd digits)
      (ap (λ text. (ok text, s)) (history_text-rounds p symbol s.clock n))
