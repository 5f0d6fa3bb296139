-- ===== src/Json.antt =====
-- The JSON helpers of the services (server/src/services) and of the UI client: key searches that
-- do not parse. A field is found by the text of its key.
pub mod Extract
pub mod Object
pub mod Escape
use hs_financial_services.Common.{
  ℕ, zero, suc, ◌+◌, ◌-◌, ◌*◌, ◌^◌, ◌≡◌, refl, Bool, true, false, ◌&&◌, ◌||◌, not, Option, none,
  some, List, [], ◌∷◌, ◌++◌, ltb, leb, ◌==◌, if◌then◌else◌, length, drop,
}
use hs_financial_services.Common.Text.{Bytes, codes, find, substr}

abbrev pub quote : ℕ
quote = b'"'

-- `"\"" + key + "\":\""`
abbrev pub string_needle : Bytes → Bytes
string_needle key = quote ∷ (key ++ codes "\":\"")

-- `"\"" + key + "\":"`
abbrev pub number_needle : Bytes → Bytes
number_needle key = quote ∷ (key ++ codes "\":")

-- What `extract_string` does with the position behind its needle: the text up to the next quote.
unfoldable pub cut_value : Bytes → ℕ → Bytes
unfolding find
cut_value json pos = elim (find json (quote ∷ []) pos) [
  | none ↦ []
  | some end ↦ substr json pos (end - pos)
]

-- `extract_string`, the same in all four services.
unfoldable pub extract_string : Bytes → Bytes → Bytes
unfolding find cut_value
extract_string json key =
    let needle = string_needle key in
    elim (find json needle 0) [ none ↦ [] | some p ↦ cut_value json (p + length needle) ]

-- The rounds of a loop `while (pos < json.size() && p(json[pos])) ++pos` over what is left.
abbrev pub span : (ℕ → Bool) → Bytes → ℕ
span p [] = 0
span p (c ∷ s) = if p c then suc (span p s) else 0

abbrev pub is_digit : ℕ → Bool
is_digit c = leb b'0' c && leb c b'9'

abbrev pub is_blank : ℕ → Bool
is_blank c = (c == b' ') || (c == 9)

abbrev pub is_numeric : ℕ → Bool
is_numeric c = is_digit c || (c == b'.') || (c == b'-')

abbrev pub is_bare : ℕ → Bool
is_bare c = not (c == b',') && not (c == b'}')

-- What stands at `pos` behind blanks, as far as the test goes.
unfoldable pub scan_value : (ℕ → Bool) → Bytes → ℕ → Bytes
scan_value p json pos =
    let start = pos + span is_blank (drop pos json) in
    let end = start + span p (drop start json) in substr json start (end - start)

-- `extract_number` of trade_service.cpp; the default is the text "0".
unfoldable pub extract_number : Bytes → Bytes → Bytes
unfolding find scan_value
extract_number json key =
    let needle = number_needle key in
    elim (find json needle 0) [
      | none ↦ codes "0"
      | some p ↦ scan_value is_numeric json (p + length needle)
    ]

-- The loop of `extract_int` over the digits. `none` is a signed overflow, which the language leaves
-- undefined.
abbrev pub read_int : Bytes → ℕ → Option ℕ
read_int [] val = some val
read_int (c ∷ s) val =
    if is_digit c
    then (if ltb (val * 10 + (c - b'0')) (2 ^ 31) then read_int s (val * 10 + (c - b'0')) else none)
    else some val

abbrev pub is_space : ℕ → Bool
is_space c = c == b' '

-- The loop with `found`: the number that the text starts with, or the default.
abbrev pub int_or : ℕ → Bytes → Option ℕ
int_or def rest = elim (span is_digit rest) [ zero ↦ some def | suc n ↦ read_int rest 0 ]

-- `extract_int` of price_history_service.cpp; it skips spaces only.
unfoldable pub extract_int : Bytes → Bytes → ℕ → Option ℕ
unfolding find
extract_int json key def =
    let needle = number_needle key in
    elim (find json needle 0) [
      | none ↦ some def
      | some p ↦
          let pos = p + length needle in
          let start = pos + span is_space (drop pos json) in int_or def (drop start json)
    ]

-- `ExtractField` of the UI client: a string value, or what stands up to `,` or `}`.
unfoldable pub extract_field : Bytes → Bytes → Bytes
unfolding find cut_value scan_value
extract_field json key =
    let needle = string_needle key in
    let other = number_needle key in
    elim (find json needle 0) [
      | some p ↦ cut_value json (p + length needle)
      | none ↦ elim (find json other 0) [
        | none ↦ []
        | some p ↦ scan_value is_bare json (p + length other)
      ]
    ]

-- What `json_escape` of sql_service.cpp appends for one character.
unfoldable pub escape_char : ℕ → Bytes
escape_char c =
    if c == quote
    then codes "\\\""
    else if c == b'\\'
    then codes "\\\\"
    else if c == 10
    then codes "\\n"
    else if c == 13
    then codes "\\r"
    else if c == 9
    then codes "\\t"
    else c ∷ []

-- The loop of `json_escape`, with `out`.
escape_loop : Bytes → Bytes → Bytes
unfolding escape_char
escape_loop [] out = out
escape_loop (c ∷ s) out = escape_loop s (out ++ escape_char c)

unfoldable pub json_escape : Bytes → Bytes
unfolding escape_loop
json_escape s = escape_loop s []
