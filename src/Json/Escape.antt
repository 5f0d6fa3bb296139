-- ===== src/Json/Escape.antt =====
-- `json_escape`, and the JSON reading of what it writes.
use hs_financial_services.Common.{
  ℕ, ◌≡◌, ◌≢◌, All-append, ap, ◌∙◌, Bool, true, false, Option, none, some, [], ◌∷◌, ◌++◌, ltb,
  append_assoc, append-nil, ◌==◌, if◌then◌else◌, arith, sym,
}
use hs_financial_services.Common.Text.{Bytes, Lacks}
use hs_financial_services.Json.{quote, json_escape, escape_loop, escape_char}

abbrev backslash : ℕ
backslash = b'\\'

-- What a JSON reader (RFC 8259) makes of the character behind a backslash; `json_escape` never
-- writes the escape with four hexadecimal digits, and it is left out.
abbrev pub escaped : ℕ → Option ℕ
escaped c =
    if c == quote
    then some quote
    else if c == backslash
    then some backslash
    else if c == b'/'
    then some b'/'
    else if c == b'b'
    then some 8
    else if c == b'f'
    then some 12
    else if c == b'n'
    then some 10
    else if c == b'r'
    then some 13
    else if c == b't'
    then some 9
    else none

-- A JSON reader inside a string of bytes: the content up to the closing quote, and the text behind
-- it. The first argument says whether a backslash is pending. A control character must be escaped.
abbrev pub read_string : Bool → Bytes → Bytes → Option (Bytes × Bytes)
read_string pending [] out = none
read_string true (c ∷ s) out = elim (escaped c) [
  | none ↦ none
  | some d ↦ read_string false s (out ++ d ∷ [])
]
read_string false (c ∷ s) out =
    let wait = read_string true s out in
    let copy = read_string false s (out ++ c ∷ []) in
    if c == quote
    then some (out, s)
    else if c == backslash
    then wait
    else if ltb c 32
    then none
    else copy

-- A text with no control character but the line feed, the carriage return and the tab.
abbrev pub is_readable : Bytes → Bool
is_readable [] = true
is_readable (c ∷ s) =
    let rest = is_readable s in
    if c == 10
    then rest
    else if c == 13
    then rest
    else if c == 9
    then rest
    else if ltb c 32
    then false
    else rest

read_string-escape_char :
    (c : ℕ) (rest out : Bytes)
    → read_string false (escape_char c ++ rest) out
      ≡ (if is_readable (c ∷ []) then read_string false rest (out ++ c ∷ []) else none)
unfolding escape_char
read_string-escape_char c rest out = ground arith

is_readable-cons :
    {A : Type 0} (c : ℕ) (s : Bytes) (a b : A)
    → (if is_readable (c ∷ []) then (if is_readable s then a else b) else b)
      ≡ (if is_readable (c ∷ s) then a else b)
is_readable-cons c s a b = ground arith

-- The text that the loop appends, with no accumulator.
escaped_text : Bytes → Bytes
escaped_text [] = []
escaped_text (c ∷ s) = escape_char c ++ escaped_text s

escape_loop-append : (s out : Bytes) → escape_loop s out ≡ out ++ escaped_text s
unfolding escape_loop escaped_text
escape_loop-append [] out = sym (append-nil out)
escape_loop-append (c ∷ s) out =
    escape_loop-append s (out ++ escape_char c) ∙ append_assoc out (escape_char c) (escaped_text s)

read_string-escaped_text :
    (s rest out : Bytes)
    → read_string false (escaped_text s ++ (quote ∷ rest)) out
      ≡ (if is_readable s then some (out ++ s, rest) else none)
unfolding escaped_text
read_string-escaped_text [] rest out = rw append-nil
read_string-escaped_text (c ∷ s) rest out =
    rw (append_assoc (escape_char c) (escaped_text s) (quote ∷ rest)) (
      read_string-escape_char c (escaped_text s ++ (quote ∷ rest)) out
      ∙ ap (λ r. if is_readable (c ∷ []) then r else none)
          (read_string-escaped_text s rest (out ++ c ∷ [])
            ∙ ap (λ t. if is_readable s then some (t, rest) else none)
                (append_assoc out (c ∷ []) s))
      ∙ is_readable-cons c s (some (out ++ c ∷ s, rest)) none)

-- A JSON reader of the escaped text, with the closing quote behind it, gets the text back and stops at
-- that quote, when the text has no control character but line feeds, carriage returns and tabs; with
-- any other control character in it, the reader refuses what `json_escape` writes.
pub read_string-json_escape :
    (s rest : Bytes)
    → read_string false (json_escape s ++ (quote ∷ rest)) []
      ≡ (if is_readable s then some (s, rest) else none)
unfolding json_escape
read_string-json_escape s rest = rw (escape_loop-append s []) (read_string-escaped_text s rest [])

escape_char-Lacks : (c : ℕ) → c ≢ quote → Lacks quote (escape_char c)
unfolding escape_char
escape_char-Lacks c h = ground arith

escape_loop-Lacks :
    (s out : Bytes) → Lacks quote s → Lacks quote out → Lacks quote (escape_loop s out)
unfolding escape_loop escape_char
escape_loop-Lacks [] out h h' = h'
escape_loop-Lacks (c ∷ s) out h h' =
    escape_loop-Lacks s (out ++ escape_char c) h.1
      (All-append (λ b. b ≢ quote) out (escape_char c) h' (escape_char-Lacks c h.0))

-- Escaping brings no quote into a text that has none.
pub json_escape-Lacks : (s : Bytes) → Lacks quote s → Lacks quote (json_escape s)
unfolding json_escape
json_escape-Lacks s h = escape_loop-Lacks s [] h tt
