-- ===== src/Moms.antt =====
-- internal/moms/moms.go: Swedish VAT on sales, the accounts it is booked to, and the boxes of the
-- momsdeklaration.
pub mod Rounding
pub mod Purchase
mod Examples
use pare.Common.{Text, bytes, text_eq, [], if◌then◌else◌}
use pare.Common.Int.{ℤ, pos, eqb_ℤ}
use pare.Common.Int64.{add, sub, mul, neg}
use pare.Common.Rounding.{round_div}
use pare.Ledger.Money.{Amount}
use pare.Ledger.Reports.{Balances, balance_of}

-- type Rate int
abbrev pub Rate : Type 0
Rate = ℤ

abbrev pub rate25 : Rate
rate25 = pos 25

abbrev pub rate12 : Rate
rate12 = pos 12

abbrev pub rate6 : Rate
rate6 = pos 6

abbrev pub rate0 : Rate
rate0 = pos 0

-- type Code string
abbrev pub Code : Type 0
Code = Text

abbrev pub se25 : Code
se25 = bytes "SE25"

abbrev pub se12 : Code
se12 = bytes "SE12"

abbrev pub se06 : Code
se06 = bytes "SE06"

abbrev pub rceu : Code
rceu = bytes "RCEU"

abbrev pub exp : Code
exp = bytes "EXP"

-- Code.Rate
unfoldable pub rate_of : Code → Rate
unfolding text_eq
rate_of c =
    if text_eq c se25
    then rate25
    else if text_eq c se12
    then rate12
    else if text_eq c se06
    then rate6
    else rate0

-- Code.Label
unfoldable pub label : Code → Text
unfolding text_eq
label c =
    if text_eq c se25
    then bytes "Moms 25 %"
    else if text_eq c se12
    then bytes "Moms 12 %"
    else if text_eq c se06
    then bytes "Moms 6 %"
    else if text_eq c rceu
    then bytes "Omvänd skattskyldighet"
    else if text_eq c exp
    then bytes "Export (utanför EU)"
    else c

-- Code.LineLabel
unfoldable pub line_label : Code → Text
unfolding text_eq
line_label c =
    if text_eq c rceu
    then bytes "Omvänd"
    else if text_eq c exp
    then bytes "Export"
    else if text_eq c se25
    then bytes "25 %"
    else if text_eq c se12
    then bytes "12 %"
    else if text_eq c se06
    then bytes "6 %"
    else bytes "0 %"

-- Code.LegalNote
unfoldable pub legal_note : Code → Text
unfolding text_eq
legal_note c =
    if text_eq c rceu
    then bytes
        "Omvänd betalningsskyldighet. Reverse charge. Köparen redovisar moms (artikel 196, mervärdesskattedirektivet 2006/112/EG)."
    else if text_eq c exp
    then bytes "Omsättning av tjänst utanför EU, ingen svensk moms."
    else []

-- VAT: to the nearest öre, half away from zero.
unfoldable pub vat : Amount → Rate → Amount
unfolding mul round_div
vat net rate = round_div (mul net rate) 50 100

-- The switch on a rate; the last argument is the default case.
abbrev by_rate : Text → Text → Text → Rate → Text
by_rate a b c rate =
    if eqb_ℤ rate rate25
    then a
    else if eqb_ℤ rate rate12
    then b
    else if eqb_ℤ rate rate6
    then c
    else []

unfoldable pub output_account : Rate → Text
output_account = by_rate (bytes "2611") (bytes "2621") (bytes "2631")

unfoldable pub sales_account : Rate → Text
sales_account = by_rate (bytes "3001") (bytes "3002") (bytes "3003")

unfoldable pub sales_account_for_code : Code → Text
unfolding text_eq
sales_account_for_code c =
    if text_eq c se25
    then bytes "3001"
    else if text_eq c se12
    then bytes "3002"
    else if text_eq c se06
    then bytes "3003"
    else if text_eq c rceu
    then bytes "3308"
    else if text_eq c exp
    then bytes "3305"
    else []

pub record Declaration : Type 0 where
  pub box05 : Amount
  pub box10 : Amount
  pub box11 : Amount
  pub box12 : Amount
  pub box20 : Amount
  pub box21 : Amount
  pub box22 : Amount
  pub box30 : Amount
  pub box31 : Amount
  pub box32 : Amount
  pub box39 : Amount
  pub box48 : Amount
  pub box49 : Amount

-- The boxes before box 49; those that Report does not set are zero.
abbrev boxes : (Text → Amount) → (Text → Amount) → Declaration
boxes cr dr = record {
  box05 = add (add (cr (bytes "3001")) (cr (bytes "3002"))) (cr (bytes "3003"));
  box10 = cr (bytes "2611");
  box11 = cr (bytes "2621");
  box12 = cr (bytes "2631");
  box20 = pos 0;
  box21 = dr (bytes "4535");
  box22 = dr (bytes "4531");
  box30 = add (cr (bytes "2614")) (cr (bytes "2615"));
  box31 = pos 0;
  box32 = pos 0;
  box39 = cr (bytes "3308");
  box48 = add (add (dr (bytes "2640")) (dr (bytes "2641"))) (dr (bytes "2645"));
  box49 = pos 0;
}

-- d.Box49 = d.Box10 + d.Box11 + d.Box12 + d.Box30 + d.Box31 + d.Box32 - d.Box48
abbrev with_box49 : Declaration → Declaration
with_box49 d = record d {
  box49 = sub (add (add (add (add (add d.box10 d.box11) d.box12) d.box30) d.box31) d.box32) d.box48;
}

unfoldable pub report : Balances → Declaration
unfolding balance_of add sub neg
report bal = with_box49 (boxes (λ acc. neg (balance_of acc bal)) (λ acc. balance_of acc bal))
