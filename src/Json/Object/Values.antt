-- ===== src/Json/Object/Values.antt =====
-- `extract_int` and `ExtractField` on the text of a flat object.
use hs_financial_services.Common.{
  ℕ, ◌+◌, ◌*◌, ◌-◌, ◌≡◌, ◌≢◌, refl, ap, ◌∙◌, inl, inr, true, false, Option, none, some, List, [],
  ◌∷◌, ◌++◌, drop, All, arith, Bool-cases,
}
use hs_financial_services.Common.Text.{Bytes}
use hs_financial_services.Json.{
  extract_int, extract_field, is_bare, is_space, is_digit, span, int_or, read_int,
}
use hs_financial_services.Json.Extract.{
  extract_int-seek, extract_field-seek, int_value, field_value, until_quote-append, or_empty,
}
use hs_financial_services.Json.Object.{
  Field, str, raw, members, object, IsKey, AllFields, IsNumber, string_of, value_of,
}
use hs_financial_services.Json.Object.Lookup.{
  StringFound, ValueFound, seek-string_object, seek-value_object, take_while-members,
  skip_blanks-members,
}

read_int-members :
    (v : Bytes) (fs : List Field) (n : ℕ) → read_int (v ++ members fs) n ≡ read_int v n
read_int-members [] [] n = refl
read_int-members [] (f ∷ fs) n = refl
read_int-members (c ∷ v) fs n = ground (arith, read_int-members v fs (n * 10 + (c - b'0')))

int_or-members :
    (def : ℕ) (v : Bytes) (fs : List Field) → int_or def (v ++ members fs) ≡ int_or def v
int_or-members def [] [] = refl
int_or-members def [] (f ∷ fs) = refl
int_or-members def (c ∷ v) fs = elim (Bool-cases (is_digit c)) [
  | inl digit ↦ rw (digit, int_or) (read_int-members (c ∷ v) fs 0)
  | inr other ↦ rw (other, int_or)
]

skip_spaces-members :
    (v : Bytes) (fs : List Field)
    → IsNumber v
    → drop (span is_space (v ++ members fs)) (v ++ members fs) ≡ v ++ members fs
skip_spaces-members [] [] h = refl
skip_spaces-members [] (f ∷ fs) h = refl
skip_spaces-members (c ∷ v) fs h = let plain : is_space c ≡ false = ground arith in rw plain

-- What `extract_int` gives for a member.
abbrev pub int_or_member : ℕ → Option Field → Option ℕ
int_or_member def none = some def
int_or_member def (some (str k v)) = some def
int_or_member def (some (raw k v)) = int_or def v

ValueFound-int :
    (def : ℕ) (o : Option Bytes) (u : Option Field)
    → ValueFound o u
    → int_value def o ≡ int_or_member def u
ValueFound-int def o u (inl (e, e')) = rw (e, e')
ValueFound-int def o u (inr (inl (k, v, s, e, e', hv))) = rw (e, e')
ValueFound-int def o u (inr (inr (k, v, fs, e, e', hv))) =
    rw (e, e', skip_spaces-members v fs hv) (int_or-members def v fs)

-- In an object of well-formed members and for a key of small letters and `_`, `extract_int` reads
-- the first member with the key, if it is a number, and otherwise gives the default.
pub extract_int-object :
    (key : Bytes) (def : ℕ) (f : Field) (fs : List Field)
    → IsKey key
    → AllFields (f ∷ fs)
    → extract_int (object f fs) key def ≡ int_or_member def (value_of key (f ∷ fs))
extract_int-object key def f fs h hf =
    extract_int-seek (object f fs) key def
    ∙ ValueFound-int def _ _ (seek-value_object key f fs h hf)

-- The value that the UI client shows: of the first string member, else of the first member.
abbrev pub shown : Option Bytes → Option Field → Bytes
shown (some v) u = v
shown none none = []
shown none (some (str k v)) = []
shown none (some (raw k v)) = v

value_of-str :
    (key k v : Bytes) (fs : List Field) → string_of key fs ≡ none → value_of key fs ≢ some (str k v)
value_of-str key k v [] h e = cc
value_of-str key k v (str j w ∷ fs) h e = ground (arith, value_of-str key k v fs)
value_of-str key k v (raw j w ∷ fs) h e = ground (arith, value_of-str key k v fs)

IsNumber-bare : (v : Bytes) → IsNumber v → All (λ c. is_bare c ≡ true) v
IsNumber-bare [] h = tt
IsNumber-bare (c ∷ v) h = (ground arith, IsNumber-bare v h.1)

Found-shown :
    (o o' u : Option Bytes) (w : Option Field)
    → StringFound o u
    → ValueFound o' w
    → (u ≡ none → (k v : Bytes) → w ≢ some (str k v))
    → field_value o o' ≡ shown u w
Found-shown o o' u w (inr (v, s, e, e', hv)) _ _ =
    rw (e, e') (ap or_empty (until_quote-append v s hv))
Found-shown o o' u w (inl (e, e')) (inl (f, f')) _ = rw (e, e', f, f')
Found-shown o o' u w (inl (e, e')) (inr (inl (k, v, s, f, f', hv))) no_str =
    absurd (no_str e' k v f')
Found-shown o o' u w (inl (e, e')) (inr (inr (k, v, fs, f, f', hv))) _ =
    rw (e, e', f, f', skip_blanks-members v fs hv)
      (take_while-members is_bare v fs (IsNumber-bare v hv) refl refl)

-- In an object of well-formed members and for a key of small letters and `_`, `ExtractField` gives
-- the value of the member with the key, a string before a number, or nothing.
pub extract_field-object :
    (key : Bytes) (f : Field) (fs : List Field)
    → IsKey key
    → AllFields (f ∷ fs)
    → extract_field (object f fs) key ≡ shown (string_of key (f ∷ fs)) (value_of key (f ∷ fs))
extract_field-object key f fs h hf =
    extract_field-seek (object f fs) key
    ∙ Found-shown _ _ _ _ (seek-string_object key f fs h hf) (seek-value_object key f fs h hf)
        (λ e k v. value_of-str key k v (f ∷ fs) e)
