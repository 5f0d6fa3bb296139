-- ===== src/Json/Object/Searches.antt =====
-- The four searches on one object.
use hs_financial_services.Common.{ℕ, ◌≡◌, List, ◌∷◌}
use hs_financial_services.Common.Text.{Bytes}
use hs_financial_services.Json.{extract_string, extract_number, extract_int, extract_field}
use hs_financial_services.Json.Extract.{or_empty}
use hs_financial_services.Json.Object.{Field, object, IsKey, AllFields, string_of, value_of}
use hs_financial_services.Json.Object.Lookup.{
  number_or, extract_string-object, extract_number-object,
}
use hs_financial_services.Json.Object.Values.{
  int_or_member, shown, extract_int-object, extract_field-object,
}

-- In an object of well-formed members and for a key of small letters and `_`: `extract_string` gives
-- the value of the first string member with the key, or nothing; `extract_number` gives the value of
-- the first member with the key if that is a number, nothing if it is a string, and "0" if there is
-- none; `extract_int` reads that member if it is a number, and otherwise gives the default; and
-- `ExtractField` gives the value of the first string member with the key, else of the first member,
-- or nothing.
pub extract-object :
    (key : Bytes) (def : ℕ) (f : Field) (fs : List Field)
    → IsKey key
    → AllFields (f ∷ fs)
    → let member = value_of key (f ∷ fs) in
      (extract_string (object f fs) key ≡ or_empty (string_of key (f ∷ fs)))
      × (extract_number (object f fs) key ≡ number_or member)
      × (extract_int (object f fs) key def ≡ int_or_member def member)
      × (extract_field (object f fs) key ≡ shown (string_of key (f ∷ fs)) member)
extract-object key def f fs h hf = (
  extract_string-object key f fs h hf,
  extract_number-object key f fs h hf,
  extract_int-object key def f fs h hf,
  extract_field-object key f fs h hf,
)
