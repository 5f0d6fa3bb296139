-- ===== src/Services/Trade/Ack.antt =====
-- The acknowledgement of an order as its readers see it.
use hs_financial_services.Common.{
  ℕ, ◌+◌, ◌%◌, ◌^◌, ◌≡◌, ◌≢◌, refl, List, [], ◌∷◌, ◌++◌, All-append, ok, arith,
}
use hs_financial_services.Common.Text.{Bytes, codes, Lacks}
use hs_financial_services.Common.Decimal.{to_string, IsDigits, to_string-IsDigits}
use hs_financial_services.Json.{quote, extract_string, extract_number, extract_field}
use hs_financial_services.Json.Object.{Field, str, raw, object, AllFields, IsKey, IsNumber}
use hs_financial_services.Json.Object.Values.{extract_field-object}
use hs_financial_services.Json.Object.Clean.{extract_string-Lacks, extract_number-IsNumber}
use hs_financial_services.Services.{ServiceState, default_to, default_to-Lacks}
use hs_financial_services.Services.Trade.{ack_text, build_order_ack}

-- The members of an acknowledgement.
abbrev pub order_field : ℕ → Field
order_field order_id = str (codes "order_id") (codes "ORD-" ++ to_string order_id)

abbrev pub ack_fields : Bytes → Bytes → Bytes → Bytes → Bytes → List Field
ack_fields symbol side account qty_s price_s =
    str (codes "symbol") symbol
    ∷ str (codes "side") side
    ∷ str (codes "account") account
    ∷ raw (codes "qty") qty_s
    ∷ raw (codes "price") price_s
    ∷ str (codes "status") (codes "FILLED")
    ∷ []

ack_text-object :
    (order_id : ℕ) (symbol side account qty_s price_s : Bytes)
    → ack_text order_id symbol side account qty_s price_s
      ≡ object (order_field order_id) (ack_fields symbol side account qty_s price_s)
unfolding ack_text
ack_text-object order_id symbol side account qty_s price_s = refl

IsDigits-Lacks : (v : Bytes) → IsDigits v → Lacks quote v
IsDigits-Lacks [] h = tt
IsDigits-Lacks (c ∷ v) h = (ground arith, IsDigits-Lacks v h.1)

default_to-IsNumber : (def v : Bytes) → IsNumber def → IsNumber v → IsNumber (default_to def v)
default_to-IsNumber def [] h h' = h
default_to-IsNumber def (c ∷ v) h h' = h'

ack-AllFields :
    (order_id : ℕ) (symbol side account qty_s price_s : Bytes)
    → Lacks quote symbol
    → Lacks quote side
    → Lacks quote account
    → IsNumber qty_s
    → IsNumber price_s
    → AllFields (order_field order_id ∷ ack_fields symbol side account qty_s price_s)
ack-AllFields order_id symbol side account qty_s price_s hs hd ha hq hp =
    let id_Lacks : Lacks quote (codes "ORD-" ++ to_string order_id) =
      All-append (λ c. c ≢ quote) (codes "ORD-") (to_string order_id) (ground arith)
        (IsDigits-Lacks _ (to_string-IsDigits order_id)) in
    ((ground arith, id_Lacks), ground arith)

-- What a client reads in an acknowledgement by `ExtractField`.
pub record Reads (ack order_id symbol side account qty price : Bytes) : Type 0 where
  pub reads_order_id : extract_field ack (codes "order_id") ≡ order_id
  pub reads_symbol : extract_field ack (codes "symbol") ≡ symbol
  pub reads_side : extract_field ack (codes "side") ≡ side
  pub reads_account : extract_field ack (codes "account") ≡ account
  pub reads_qty : extract_field ack (codes "qty") ≡ qty
  pub reads_price : extract_field ack (codes "price") ≡ price
  pub reads_status : extract_field ack (codes "status") ≡ codes "FILLED"

ack_text-Reads :
    (order_id : ℕ) (symbol side account qty_s price_s : Bytes)
    → AllFields (order_field order_id ∷ ack_fields symbol side account qty_s price_s)
    → Reads
        (ack_text order_id symbol side account qty_s price_s)
        (codes "ORD-" ++ to_string order_id)
        symbol
        side
        account
        qty_s
        price_s
ack_text-Reads order_id symbol side account qty_s price_s h =
    let fs = ack_fields symbol side account qty_s price_s in
    let read =
      λ (key : Bytes) (k : IsKey key). extract_field-object key (order_field order_id) fs k h in
    rw (ack_text-object order_id symbol side account qty_s price_s) (record {
      reads_order_id = read (codes "order_id") (ground arith);
      reads_symbol = read (codes "symbol") (ground arith);
      reads_side = read (codes "side") (ground arith);
      reads_account = read (codes "account") (ground arith);
      reads_qty = read (codes "qty") (ground arith);
      reads_price = read (codes "price") (ground arith);
      reads_status = read (codes "status") (ground arith);
    })

-- Whatever bytes the request holds, and for a side with no quote in it, the order is acknowledged,
-- the client reads the number of the order behind `ORD-`, the side, the status `FILLED`, and what
-- the request says or the defaults, and the counter goes up by one, modulo 2 ^ 64.
pub build_order_ack-Reads :
    (side request_json : Bytes) (s : ServiceState)
    → Lacks quote side
    → (ack : Bytes) × (build_order_ack side request_json s
        ≡ (ok ack, record s { order_counter = (s.order_counter + 1) % 2 ^ 64 }))
      × Reads ack
          (codes "ORD-" ++ to_string s.order_counter)
          (default_to (codes "UNKNOWN") (extract_string request_json (codes "symbol")))
          side
          (default_to (codes "N/A") (extract_string request_json (codes "account")))
          (default_to (codes "0") (extract_number request_json (codes "qty")))
          (default_to (codes "0") (extract_number request_json (codes "price")))
unfolding build_order_ack
build_order_ack-Reads side request_json s h = (
  _,
  refl,
  ack_text-Reads s.order_counter _ side _ _ _ (
      ack-AllFields s.order_counter _ side _ _ _
        (default_to-Lacks _ _ (ground arith) (extract_string-Lacks request_json (codes "symbol"))) h
        (default_to-Lacks _ _ (ground arith) (extract_string-Lacks request_json (codes "account")))
        (default_to-IsNumber _ _ (ground arith)
          (extract_number-IsNumber request_json (codes "qty")))
        (default_to-IsNumber _ _ (ground arith)
          (extract_number-IsNumber request_json (codes "price")))),
)
