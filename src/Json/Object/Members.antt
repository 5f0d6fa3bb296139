-- ===== src/Json/Object/Members.antt =====
-- A search for `"key":` or `"key":"` in a member of an object.
use hs_financial_services.Common.{
  ℕ, ◌≡◌, refl, ap, ◌∙◌, ◌≢◌, true, false, Option, none, some, List, [], ◌∷◌, ◌++◌, if◌then◌else◌,
  All, arith, inl, inr, Bool-cases,
}
use hs_financial_services.Common.Text.{Bytes, Lacks, strip, seek, seek_skip}
use hs_financial_services.Json.{quote}
use hs_financial_services.Json.Object.{
  colon, comma, brace, Field, str, raw, member, members, is_key_char, IsKey, same,
}

key-Lacks : (key : Bytes) → All (λ c. is_key_char c ≡ true) key → Lacks quote key
key-Lacks [] h = tt
key-Lacks (c ∷ key) h = (ground arith, key-Lacks key h.1)

pub IsKey-Lacks : (key : Bytes) → IsKey key → Lacks quote key
IsKey-Lacks [] h = absurd h
IsKey-Lacks (c ∷ key) h = key-Lacks (c ∷ key) h

-- Behind two words in quotes a search goes on only if the words are the same.
pub strip-quoted :
    (key k x t : Bytes)
    → Lacks quote key
    → Lacks quote k
    → strip (key ++ (quote ∷ x)) (k ++ (quote ∷ t)) ≡ (if same key k then strip x t else none)
strip-quoted [] [] x t h h' = refl
strip-quoted [] (c ∷ k) x t h h' = ground arith
strip-quoted (c ∷ key) [] x t h h' = ground arith
strip-quoted (c ∷ key) (d ∷ k) x t h h' = ground (arith, strip-quoted key k x t h.1 h'.1)

module _ (w : Bytes) where
  abbrev pub needle : Bytes → Bytes
  needle key = quote ∷ (key ++ (quote ∷ colon ∷ w))

  -- The quote and the colon behind a key begin no match.
  seek-colon :
      (key t : Bytes) → IsKey key → seek (needle key) (quote ∷ colon ∷ t) ≡ seek (needle key) t
  seek-colon [] t h = absurd h
  seek-colon (c ∷ key) t h = ground arith

  -- Nor does the quote at the end of a value.
  seek-end :
      (key : Bytes) (d : ℕ) (t : Bytes)
      → IsKey key
      → is_key_char d ≡ false
      → seek (needle key) (quote ∷ d ∷ t) ≡ seek (needle key) (d ∷ t)
  seek-end [] d t h e = absurd h
  seek-end (c ∷ key) d t h e = ground arith

  -- A key in quotes with its colon is a match if it is the key and `w` follows.
  pub seek-key :
      (key k t : Bytes)
      → IsKey key
      → IsKey k
      → seek (needle key) (quote ∷ (k ++ (quote ∷ colon ∷ t)))
        ≡ elim (if same key k then strip w t else none) [
          | some r ↦ some r
          | none ↦ seek (needle key) t
        ]
  seek-key key k t h h' =
      let opening =
        strip-quoted key k (colon ∷ w) (colon ∷ t) (IsKey-Lacks key h) (IsKey-Lacks k h') in
      rw (opening, seek)
        (ap
          (λ (rest : Option Bytes).
            elim (if same key k then strip w t else none) as (λ x. Option Bytes) [
              | some r ↦ some r
              | none ↦ rest
            ])
          (seek_skip quote _ k (quote ∷ colon ∷ t) (IsKey-Lacks k h') ∙ seek-colon key t h))

  -- A value in quotes, with no colon behind it, holds no match.
  pub seek-value :
      (key v : Bytes) (d : ℕ) (t : Bytes)
      → IsKey key
      → Lacks quote v
      → is_key_char d ≡ false
      → d ≢ colon
      → seek (needle key) (quote ∷ (v ++ (quote ∷ d ∷ t))) ≡ seek (needle key) (d ∷ t)
  seek-value key v d t h hv hd hc =
      let opening = strip-quoted key v (colon ∷ w) (d ∷ t) (IsKey-Lacks key h) hv in
      let shut : (if same key v then strip (colon ∷ w) (d ∷ t) else none) ≡ none = ground arith in
      rw (opening, shut, seek) (seek_skip quote _ v (quote ∷ d ∷ t) hv ∙ seek-end key d t h hd)

-- What can stand behind a member.
abbrev pub Behind : Bytes → Type 0
Behind s = (d : ℕ) × (t : Bytes) × (s ≡ d ∷ t) × (is_key_char d ≡ false) × (d ≢ colon) × (d ≢ quote)

pub members-Behind : (fs : List Field) → Behind (members fs)
members-Behind [] = (brace, [], refl, refl, ground arith, ground arith)
members-Behind (f ∷ fs) = (comma, member f (members fs), refl, refl, ground arith, ground arith)

strip_no_quote :
    (v : Bytes) (d : ℕ) (t : Bytes)
    → Lacks quote v
    → d ≢ quote
    → strip (quote ∷ []) (v ++ (d ∷ t)) ≡ none
strip_no_quote [] d t h h' = ground arith
strip_no_quote (c ∷ v) d t h h' = ground arith

module _ (key k v s : Bytes) (h : IsKey key) (h' : IsKey k) (hv : Lacks quote v) where
  -- `"key":"` in a string member, in any other member, and `"key":` in both.
  pub seek-str :
      Behind s
      → seek (needle (quote ∷ []) key) (member (str k v) s)
        ≡ (if same key k then some (v ++ (quote ∷ s)) else seek (needle (quote ∷ []) key) s)
  seek-str (d, t, e, hd, hc, hq) = rw e (
      seek-key (quote ∷ []) key k (quote ∷ (v ++ (quote ∷ d ∷ t))) h h'
      ∙ elim (Bool-cases (same key k)) [
        | inl hit ↦ rw (hit)
        | inr miss ↦ rw (miss) (seek-value (quote ∷ []) key v d t h hv hd hc)
      ])

  pub seek-raw :
      Behind s
      → seek (needle (quote ∷ []) key) (member (raw k v) s) ≡ seek (needle (quote ∷ []) key) s
  seek-raw (d, t, e, hd, hc, hq) = rw e (
      seek-key (quote ∷ []) key k (v ++ (d ∷ t)) h h' ∙ elim (Bool-cases (same key k)) [
        | inl hit ↦ rw (hit, strip_no_quote v d t hv hq) (seek_skip quote _ v (d ∷ t) hv)
        | inr miss ↦ rw (miss) (seek_skip quote _ v (d ∷ t) hv)
      ])

  pub seek-str_number :
      Behind s
      → seek (needle [] key) (member (str k v) s)
        ≡ (if same key k then some (quote ∷ (v ++ (quote ∷ s))) else seek (needle [] key) s)
  seek-str_number (d, t, e, hd, hc, hq) = rw e (
      seek-key [] key k (quote ∷ (v ++ (quote ∷ d ∷ t))) h h' ∙ elim (Bool-cases (same key k)) [
        | inl hit ↦ rw (hit)
        | inr miss ↦ rw (miss) (seek-value [] key v d t h hv hd hc)
      ])

  pub seek-raw_number :
      Behind s
      → seek (needle [] key) (member (raw k v) s)
        ≡ (if same key k then some (v ++ s) else seek (needle [] key) s)
  seek-raw_number (d, t, e, hd, hc, hq) = rw e (
      seek-key [] key k (v ++ (d ∷ t)) h h' ∙ elim (Bool-cases (same key k)) [
        | inl hit ↦ rw (hit)
        | inr miss ↦ rw (miss) (seek_skip quote _ v (d ∷ t) hv)
      ])
