-- ===== src/Json/Object.antt =====
-- Flat JSON objects as the programs print them, and what the key searches find in them.
pub mod Members
pub mod Lookup
pub mod Values
pub mod Clean
pub mod Searches
use hs_financial_services.Common.{
  ℕ, ◌≡◌, refl, Bool, true, false, ◌||◌, ◌&&◌, Option, none, some, List, [], ◌∷◌, ◌++◌, leb, ◌==◌,
  if◌then◌else◌, All,
}
use hs_financial_services.Common.Text.{Bytes, codes, Lacks}
use hs_financial_services.Json.{quote, is_numeric}

abbrev pub colon : ℕ
colon = b':'

abbrev pub comma : ℕ
comma = b','

abbrev pub brace : ℕ
brace = b'}'

-- A member with a string value, or with a value printed with no quotes.
pub data Field : Type 0 where
  str : Bytes → Bytes → Field
  raw : Bytes → Bytes → Field

-- A member, and the text behind it.
abbrev pub member : Field → Bytes → Bytes
member (str key v) rest = quote ∷ (key ++ (quote ∷ colon ∷ quote ∷ (v ++ (quote ∷ rest))))
member (raw key v) rest = quote ∷ (key ++ (quote ∷ colon ∷ (v ++ rest)))

abbrev pub members : List Field → Bytes
members [] = brace ∷ []
members (f ∷ fs) = comma ∷ member f (members fs)

-- The text of an object with a first member.
abbrev pub object : Field → List Field → Bytes
object f fs = b'{' ∷ member f (members fs)

abbrev pub is_key_char : ℕ → Bool
is_key_char c = (leb b'a' c && leb c b'z') || (c == b'_')

-- Keys are words of small letters and `_`.
abbrev pub IsKey : Bytes → Type 0
IsKey [] = ⊥
IsKey (c ∷ key) = (is_key_char c ≡ true) × All (λ x. is_key_char x ≡ true) key

-- Digits, `.` and `-`.
abbrev pub IsNumber : Bytes → Type 0
IsNumber = All (λ c. is_numeric c ≡ true)

abbrev pub IsField : Field → Type 0
IsField (str key v) = IsKey key × Lacks quote v
IsField (raw key v) = IsKey key × IsNumber v

abbrev pub AllFields : List Field → Type 0
AllFields = All IsField

abbrev pub same : Bytes → Bytes → Bool
same [] [] = true
same [] (c ∷ k) = false
same (c ∷ k) [] = false
same (c ∷ k) (d ∷ l) = if c == d then same k l else false

-- The first string member with the key.
abbrev pub string_of : Bytes → List Field → Option Bytes
string_of key [] = none
string_of key (str k v ∷ fs) = if same key k then some v else string_of key fs
string_of key (raw k v ∷ fs) = string_of key fs

-- The value of the first member with the key.
-- (The field itself, since a value may be a string or not.)
abbrev pub value_of : Bytes → List Field → Option Field
value_of key [] = none
value_of key (str k v ∷ fs) = if same key k then some (str k v) else value_of key fs
value_of key (raw k v ∷ fs) = if same key k then some (raw k v) else value_of key fs
