-- ===== src/Json/Object/Lookup.antt =====
-- The string and number searches on the text of a flat object, by its members.
use hs_financial_services.Common.{
  ℕ, ◌≡◌, refl, ap, ◌∙◌, ◌⊎◌, inl, inr, Bool, true, false, Option, none, some, List, [], ◌∷◌, ◌++◌,
  All, arith, Bool-cases,
}
use hs_financial_services.Common.Text.{Bytes, codes, Lacks, seek}
use hs_financial_services.Json.{quote, extract_string, extract_number, is_numeric, is_blank}
use hs_financial_services.Json.Extract.{
  extract_string-seek, extract_number-seek, or_empty, quoted_value, number_value,
  until_quote-append, take_while, take_while-append, skip_blanks,
}
use hs_financial_services.Json.Object.{
  Field, str, raw, member, members, object, IsKey, IsField, AllFields, IsNumber, same, string_of,
  value_of, comma, brace,
}
use hs_financial_services.Json.Object.Members.{
  needle, members-Behind, seek-str, seek-raw, seek-str_number, seek-raw_number,
}

abbrev pub StringFound : Option Bytes → Option Bytes → Type 0
StringFound o u =
    ((o ≡ none) × (u ≡ none))
    ⊎ ((v : Bytes) × (s : Bytes) × (o ≡ some (v ++ (quote ∷ s))) × (u ≡ some v) × Lacks quote v)

-- The search for `"key":` finds the first member with the key, and stands before its value.
abbrev pub ValueFound : Option Bytes → Option Field → Type 0
ValueFound o u =
    ((o ≡ none) × (u ≡ none))
    ⊎ ((k : Bytes) × (v : Bytes) × (s : Bytes) × (o ≡ some (quote ∷ (v ++ (quote ∷ s))))
        × (u ≡ some (str k v))
        × Lacks quote v)
    ⊎ ((k : Bytes) × (v : Bytes) × (fs : List Field) × (o ≡ some (v ++ members fs))
        × (u ≡ some (raw k v))
        × IsNumber v)

IsNumber-Lacks : (v : Bytes) → IsNumber v → Lacks quote v
IsNumber-Lacks [] h = tt
IsNumber-Lacks (c ∷ v) h = (ground arith, IsNumber-Lacks v h.1)

seek-value_member :
    (key : Bytes) (f : Field) (fs : List Field)
    → IsKey key
    → IsField f
    → ValueFound (seek (needle [] key) (members fs)) (value_of key fs)
    → ValueFound (seek (needle [] key) (member f (members fs))) (value_of key (f ∷ fs))
seek-value_member key (str k v) fs h hf ih = elim (Bool-cases (same key k)) [
  | inl hit ↦ inr (
      inl (
        k,
        v,
        members fs,
        seek-str_number key k v (members fs) h hf.0 hf.1 (members-Behind fs) ∙ rw hit,
        rw hit,
        hf.1,
      ))
  | inr miss ↦ rw (seek-str_number key k v (members fs) h hf.0 hf.1 (members-Behind fs), miss) ih
]
seek-value_member key (raw k v) fs h hf ih =
    let there =
      seek-raw_number key k v (members fs) h hf.0 (IsNumber-Lacks v hf.1) (members-Behind fs) in
    elim (Bool-cases (same key k)) [
      | inl hit ↦ inr (inr (k, v, fs, there ∙ rw hit, rw hit, hf.1))
      | inr miss ↦ rw (there, miss) ih
    ]

seek-value_members :
    (key : Bytes) (fs : List Field)
    → IsKey key
    → AllFields fs
    → ValueFound (seek (needle [] key) (members fs)) (value_of key fs)
seek-value_members key [] h hf = inl (refl, refl)
seek-value_members key (f ∷ fs) h hf =
    seek-value_member key f fs h hf.0 (seek-value_members key fs h hf.1)

pub seek-value_object :
    (key : Bytes) (f : Field) (fs : List Field)
    → IsKey key
    → AllFields (f ∷ fs)
    → ValueFound (seek (needle [] key) (object f fs)) (value_of key (f ∷ fs))
seek-value_object key f fs h hf =
    seek-value_member key f fs h hf.0 (seek-value_members key fs h hf.1)

-- One member, given the answer for those behind it.
seek-string_member :
    (key : Bytes) (f : Field) (fs : List Field)
    → IsKey key
    → IsField f
    → StringFound (seek (needle (quote ∷ []) key) (members fs)) (string_of key fs)
    → StringFound (seek (needle (quote ∷ []) key) (member f (members fs))) (string_of key (f ∷ fs))
seek-string_member key (str k v) fs h hf ih = elim (Bool-cases (same key k)) [
  | inl hit ↦ inr (
    v,
    members fs,
    seek-str key k v (members fs) h hf.0 hf.1 (members-Behind fs) ∙ rw hit,
    rw hit,
    hf.1,
  )
  | inr miss ↦ rw (seek-str key k v (members fs) h hf.0 hf.1 (members-Behind fs), miss) ih
]
seek-string_member key (raw k v) fs h hf ih =
    rw (seek-raw key k v (members fs) h hf.0 (IsNumber-Lacks v hf.1) (members-Behind fs)) ih

seek-string_members :
    (key : Bytes) (fs : List Field)
    → IsKey key
    → AllFields fs
    → StringFound (seek (needle (quote ∷ []) key) (members fs)) (string_of key fs)
seek-string_members key [] h hf = inl (refl, refl)
seek-string_members key (f ∷ fs) h hf =
    seek-string_member key f fs h hf.0 (seek-string_members key fs h hf.1)

pub seek-string_object :
    (key : Bytes) (f : Field) (fs : List Field)
    → IsKey key
    → AllFields (f ∷ fs)
    → StringFound (seek (needle (quote ∷ []) key) (object f fs)) (string_of key (f ∷ fs))
seek-string_object key f fs h hf =
    seek-string_member key f fs h hf.0 (seek-string_members key fs h hf.1)

StringFound-value : (o u : Option Bytes) → StringFound o u → quoted_value o ≡ or_empty u
StringFound-value o u (inl (e, e')) = rw (e, e')
StringFound-value o u (inr (v, s, e, e', hv)) = rw (e, e') (ap or_empty (until_quote-append v s hv))

-- In an object of well-formed members and for a key of small letters and `_`, `extract_string`
-- gives the value of the first string member with the key, and nothing if there is none.
pub extract_string-object :
    (key : Bytes) (f : Field) (fs : List Field)
    → IsKey key
    → AllFields (f ∷ fs)
    → extract_string (object f fs) key ≡ or_empty (string_of key (f ∷ fs))
extract_string-object key f fs h hf =
    extract_string-seek (object f fs) key ∙ StringFound-value _ _ (seek-string_object key f fs h hf)

pub take_while-members :
    (p : ℕ → Bool) (v : Bytes) (fs : List Field)
    → All (λ x. p x ≡ true) v
    → p comma ≡ false
    → p brace ≡ false
    → take_while p (v ++ members fs) ≡ v
take_while-members p v [] h hc hb = take_while-append p v [] brace h hb
take_while-members p v (f ∷ fs) h hc hb = take_while-append p v _ comma h hc

pub skip_blanks-members :
    (v : Bytes) (fs : List Field) → IsNumber v → skip_blanks (v ++ members fs) ≡ v ++ members fs
skip_blanks-members [] [] h = refl
skip_blanks-members [] (f ∷ fs) h = refl
skip_blanks-members (c ∷ v) fs h = let plain : is_blank c ≡ false = ground arith in rw plain

-- What `extract_number` gives for a member.
abbrev pub number_or : Option Field → Bytes
number_or none = codes "0"
number_or (some (str k v)) = []
number_or (some (raw k v)) = v

ValueFound-number :
    (o : Option Bytes) (u : Option Field) → ValueFound o u → number_value o ≡ number_or u
ValueFound-number o u (inl (e, e')) = rw (e, e')
ValueFound-number o u (inr (inl (k, v, s, e, e', hv))) = rw (e, e')
ValueFound-number o u (inr (inr (k, v, fs, e, e', hv))) =
    rw (e, e', skip_blanks-members v fs hv) (take_while-members is_numeric v fs hv refl refl)

-- In an object of well-formed members and for a key of small letters and `_`, `extract_number`
-- gives the value of the first member with the key if that is a number, nothing if it is a string,
-- and "0" if no member has the key.
pub extract_number-object :
    (key : Bytes) (f : Field) (fs : List Field)
    → IsKey key
    → AllFields (f ∷ fs)
    → extract_number (object f fs) key ≡ number_or (value_of key (f ∷ fs))
extract_number-object key f fs h hf =
    extract_number-seek (object f fs) key ∙ ValueFound-number _ _ (seek-value_object key f fs h hf)
