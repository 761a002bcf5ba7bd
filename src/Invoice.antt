-- ===== src/Invoice.antt =====
-- internal/invoice/invoice.go: a customer invoice, and the verifikat lines that book it in SEK.
--
-- A Go map from codes to sums is an association list with one entry to a code, in the order of
-- insertion; only GrossSEK ranges over it, and forms a sum.
pub mod Rounding
pub mod Balance
pub mod Gross
mod Examples
use pare.Common.{
  ℕ, Text, bytes, text_eq, Option, none, some, List, [], ◌∷◌, ◌++◌, not, if◌then◌else◌,
}
use pare.Common.Int.{ℤ, pos, eqb_ℤ}
use pare.Common.Int64.{add, mul}
use pare.Common.Rounding.{round_div}
use pare.Ledger.Money.{Amount}
use pare.Ledger.Verification.{Line as LedgerLine}
use pare.Moms.{
  Code, se25, se12, se06, rceu, exp, rate_of, vat, output_account, sales_account_for_code,
}

pub record Line : Type 0 where
  pub description : Text
  pub quantity_milli : ℤ
  pub unit_price_ore : Amount
  pub vat_code : Code

-- Line.Net
unfoldable pub line_net : Line → Amount
unfolding mul round_div
line_net l = round_div (mul l.unit_price_ore l.quantity_milli) 500 1000

-- Line.VAT
unfoldable pub line_vat : Line → Amount
unfolding line_net vat rate_of
line_vat l = vat (line_net l) (rate_of l.vat_code)

pub record Invoice : Type 0 where
  pub number : Text
  pub date : ℕ
  pub due_date : ℕ
  pub currency : Text
  pub rate_ppm : ℤ
  pub lines : List Line

abbrev identity_ppm : ℤ
identity_ppm = pos 1000000

-- Invoice.ratePPM
unfoldable pub ppm_of : Invoice → ℤ
ppm_of inv = if eqb_ℤ inv.rate_ppm (pos 0) then identity_ppm else inv.rate_ppm

-- convertToSEK
unfoldable pub convert_to_sek : Amount → ℤ → Amount
unfolding mul round_div
convert_to_sek x rate_ppm =
    let ppm = if eqb_ℤ rate_ppm (pos 0) then identity_ppm else rate_ppm in
    round_div (mul x ppm) 500000 1000000

-- agg{net, vat}
pub record Agg : Type 0 where
  pub net : Amount
  pub vat : Amount

abbrev pub Aggs : Type 0
Aggs = List (Code × Agg)

-- The entry of a line's code, made if it is missing, with the line's sums added.
unfoldable pub add_line : Line → Aggs → Aggs
unfolding line_net line_vat add text_eq
add_line l [] =
    (l.vat_code, record { net = add (pos 0) (line_net l); vat = add (pos 0) (line_vat l) }) ∷ []
add_line l ((c, a) ∷ by) =
    if text_eq c l.vat_code
    then (c, record { net = add a.net (line_net l); vat = add a.vat (line_vat l) }) ∷ by
    else (c, a) ∷ add_line l by

-- The loop over the lines that fills the map.
unfoldable pub aggregate : Aggs → List Line → Aggs
unfolding add_line
aggregate by [] = by
aggregate by (l ∷ ls) = aggregate (add_line l by) ls

-- `by[c]`, with nil as none
unfoldable pub agg_of : Code → Aggs → Option Agg
unfolding text_eq
agg_of c [] = none
agg_of c ((k, a) ∷ by) = if text_eq k c then some a else agg_of c by

-- The loop of GrossSEK over the map.
unfoldable pub gross_from : ℤ → Amount → Aggs → Amount
unfolding add convert_to_sek
gross_from ppm g [] = g
gross_from ppm g ((c, a) ∷ by) =
    gross_from ppm (add g (add (convert_to_sek a.net ppm) (convert_to_sek a.vat ppm))) by

unfoldable pub gross_sek : Invoice → Amount
unfolding aggregate ppm_of gross_from
gross_sek inv = gross_from (ppm_of inv) (pos 0) (aggregate [] inv.lines)

abbrev pub code_order : List Code
code_order = se25 ∷ se12 ∷ se06 ∷ rceu ∷ exp ∷ []

-- Invoice.Net, Invoice.VAT and Invoice.Total
net_from : Amount → List Line → Amount
net_from t [] = t
net_from t (l ∷ ls) = net_from (add t (line_net l)) ls

vat_from : Amount → List Line → Amount
vat_from t [] = t
vat_from t (l ∷ ls) = vat_from (add t (line_vat l)) ls

unfoldable pub net : Invoice → Amount
unfolding net_from line_net add
net inv = net_from (pos 0) inv.lines

unfoldable pub vat_total : Invoice → Amount
unfolding vat_from line_vat add
vat_total inv = vat_from (pos 0) inv.lines

unfoldable pub total : Invoice → Amount
unfolding net vat_total add
total inv = add (net inv) (vat_total inv)

-- The lines that book one code: its sales, and its VAT unless that is zero.
abbrev code_lines : Code → Amount → Amount → List LedgerLine
code_lines c net_sek vat_sek =
    record { account = sales_account_for_code c; debit = pos 0; credit = net_sek; vat_code = c }
    ∷ (if not (eqb_ℤ vat_sek (pos 0))
        then record {
          account = output_account (rate_of c);
          debit = pos 0;
          credit = vat_sek;
          vat_code = [];
        }
          ∷ []
        else [])

-- The loop over codeOrder: the sales lines and the gross so far.
unfoldable pub sales_from :
    List Code → Aggs → ℤ → List LedgerLine → Amount → List LedgerLine × Amount
unfolding agg_of convert_to_sek sales_account_for_code output_account rate_of add
sales_from [] by ppm sales gross = (sales, gross)
sales_from (c ∷ cs) by ppm sales gross = elim (agg_of c by) [
  | none ↦ sales_from cs by ppm sales gross
  | some a ↦
      let net_sek = convert_to_sek a.net ppm in
      let vat_sek = convert_to_sek a.vat ppm in
      sales_from cs by ppm (sales ++ code_lines c net_sek vat_sek) (add gross (add net_sek vat_sek))
]

-- The line that debits Kundfordringar.
abbrev receivable : Amount → LedgerLine
receivable gross = record { account = bytes "1510"; debit = gross; credit = pos 0; vat_code = [] }

unfoldable pub verification_lines : Invoice → List LedgerLine
unfolding sales_from aggregate ppm_of
verification_lines inv =
    let (sales, gross) = sales_from code_order (aggregate [] inv.lines) (ppm_of inv) [] (pos 0) in
    receivable gross ∷ sales
