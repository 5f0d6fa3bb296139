-- ===== src/Ui/Commands/Days/Candles.antt =====
-- How many candles the counting loop finds in the text of a price history's rounds.
use hs_financial_services.Common.{
  ℕ, zero, suc, ◌+◌, ◌≡◌, refl, ap, ◌∙◌, inl, inr, none, [], ◌∷◌, ◌++◌, arith, Bool-cases,
  append_assoc, if◌then◌else◌,
}
use hs_financial_services.Common.Int.{ℤ}
use hs_financial_services.Common.Text.{Bytes, codes, Lacks, strip}
use hs_financial_services.Common.Decimal.{to_string, to_string-IsDigits, IsDigits}
use hs_financial_services.Json.{quote}
use hs_financial_services.Json.Object.{same}
use hs_financial_services.Json.Object.Members.{strip-quoted}
use hs_financial_services.Services.History.{Platform, Day, day, day_text, candle}
use hs_financial_services.Services.History.Days.{rounds, joined, behind_commas}
use hs_financial_services.Ui.Commands.Scan.Count.{occurrences, occurrences_skip}
use hs_financial_services.Ui.Commands.Candles.{date_needle}

abbrev pub count : Bytes → ℕ
count = occurrences date_needle

skip : (v rest : Bytes) → Lacks quote v → count (v ++ rest) ≡ count rest
skip v rest h = occurrences_skip quote (codes "date\":") v rest h

-- A text in quotes with a comma behind it is no key.
pub skip-quoted :
    (v rest : Bytes) → Lacks quote v → count (quote ∷ (v ++ (quote ∷ b',' ∷ rest))) ≡ count rest
skip-quoted v rest h =
    let opening = strip-quoted (codes "date") v (codes ":") (b',' ∷ rest) (ground arith) h in
    let shut : (if same (codes "date") v then strip (codes ":") (b',' ∷ rest) else none) ≡ none =
      elim (Bool-cases (same (codes "date") v)) [ inl e ↦ rw e refl | inr e ↦ rw e refl ] in
    rw (opening, shut, occurrences) (skip v (quote ∷ b',' ∷ rest) h)

-- What a candle prints behind its first key.
abbrev printed : Bytes → Bytes → Bytes → Bytes → Bytes → Bytes → Bytes → Bytes
printed date open_ high low close_ vol rest =
    quote
    ∷ (date
        ++ (quote
            ∷ b','
            ∷ (codes "\"open\":"
                ++ (open_
                    ++ (codes ",\"high\":"
                        ++ (high
                            ++ (codes ",\"low\":"
                                ++ (low
                                    ++ (codes ",\"close\":"
                                        ++ (close_
                                            ++ (codes ",\"volume\":"
                                                ++ (vol ++ (b'}' ∷ rest)))))))))))))

printed-count :
    (date open_ high low close_ vol rest : Bytes)
    → Lacks quote date
    → Lacks quote open_
    → Lacks quote high
    → Lacks quote low
    → Lacks quote close_
    → Lacks quote vol
    → count (printed date open_ high low close_ vol rest) ≡ count rest
printed-count date open_ high low close_ vol rest hd ho hh hl hc hv =
    skip-quoted date _ hd
    ∙ skip open_ _ ho
    ∙ skip high _ hh
    ∙ skip low _ hl
    ∙ skip close_ _ hc
    ∙ skip vol (b'}' ∷ rest) hv

pub IsDigits-Lacks : (v : Bytes) → IsDigits v → Lacks quote v
IsDigits-Lacks [] h = tt
IsDigits-Lacks (c ∷ v) h = (ground arith, IsDigits-Lacks v h.1)

module _ (p : Platform) (dates : (t : ℤ) → Lacks quote (p.format_date t))
    (numbers : (x : p.Double) → Lacks quote (p.print_double x)) (base_price : p.Double)
    (now : ℕ) where
  day_text-append :
      (d : Day p) (rest : Bytes)
      → day_text p d ++ rest
        ≡ codes "{\"date\":"
          ++ printed
              (p.format_date d.day_t)
              (p.print_double d.open_)
              (p.print_double d.high)
              (p.print_double d.low)
              (p.print_double d.close_)
              (to_string d.vol)
              rest
  day_text-append d rest = simp append_assoc

  candle-count :
      (i : ℕ) (rest : Bytes) → count (candle p base_price now i ++ rest) ≡ suc (count rest)
  unfolding candle
  candle-count i rest =
      let d = day p base_price now i in
      ap count (day_text-append d rest)
      ∙ ap suc (
          printed-count (p.format_date d.day_t) (p.print_double d.open_) (p.print_double d.high)
            (p.print_double d.low) (p.print_double d.close_) (to_string d.vol) rest (dates d.day_t)
            (numbers d.open_) (numbers d.high) (numbers d.low) (numbers d.close_)
            (IsDigits-Lacks (to_string d.vol) (to_string-IsDigits d.vol)))

  rounds-behind :
      (n : ℕ) (rest : Bytes)
      → count (behind_commas (rounds p base_price now n) ++ rest) ≡ n + count rest
  rounds-behind zero rest = omega arith
  rounds-behind (suc n) rest =
      ap count (append_assoc (candle p base_price now n) _ rest)
      ∙ candle-count n _
      ∙ ap suc (rounds-behind n rest)
      ∙ omega arith

  pub rounds-count :
      (n : ℕ) (rest : Bytes) → count (joined (rounds p base_price now n) ++ rest) ≡ n + count rest
  rounds-count zero rest = omega arith
  rounds-count (suc n) rest =
      ap count (append_assoc (candle p base_price now n) _ rest)
      ∙ candle-count n _
      ∙ ap suc (rounds-behind n rest)
      ∙ omega arith
