-- ===== src/Moms/Purchase.antt =====
-- internal/moms/purchase.go: the VAT of supplier costs, and the verifikat lines that book it.
pub mod Entry
pub mod ReverseCharge
use pare.Common.{
  Text, bytes, text_eq, Bool, true, false, ◌||◌, Option, none, some, List, [], ◌∷◌, if◌then◌else◌,
}
use pare.Common.Int.{ℤ, pos}
use pare.Common.Int64.{add}
use pare.Ledger.Money.{Amount}
use pare.Ledger.Verification.{Line}
use pare.Moms.{Rate, rate25, rate12, rate6, vat}

-- type PurchaseCode string
abbrev pub PurchaseCode : Type 0
PurchaseCode = Text

abbrev pub pd25 : PurchaseCode
pd25 = bytes "PD25"

abbrev pub pd12 : PurchaseCode
pd12 = bytes "PD12"

abbrev pub pd06 : PurchaseCode
pd06 = bytes "PD06"

abbrev pub peu : PurchaseCode
peu = bytes "PEU"

abbrev pub pimp : PurchaseCode
pimp = bytes "PIMP"

abbrev pub pnone : PurchaseCode
pnone = bytes "PNONE"

-- PurchaseCode.Label
unfoldable pub purchase_label : PurchaseCode → Text
unfolding text_eq
purchase_label c =
    if text_eq c pd25
    then bytes "Svensk moms 25 %"
    else if text_eq c pd12
    then bytes "Svensk moms 12 %"
    else if text_eq c pd06
    then bytes "Svensk moms 6 %"
    else if text_eq c peu
    then bytes "EU-tjänst, omvänd moms"
    else if text_eq c pimp
    then bytes "Tjänst utanför EU, omvänd moms"
    else if text_eq c pnone
    then bytes "Ingen avdragsgill moms"
    else c

-- domesticRate: `(rate, true)` is `some rate`.
unfoldable pub domestic_rate : PurchaseCode → Option Rate
unfolding text_eq
domestic_rate c =
    if text_eq c pd25
    then some rate25
    else if text_eq c pd12
    then some rate12
    else if text_eq c pd06
    then some rate6
    else none

abbrev pub debit_line : Text → Amount → Line
debit_line a x = record { account = a; debit = x; credit = pos 0; vat_code = [] }

abbrev pub credit_line : Text → Amount → Line
credit_line a x = record { account = a; debit = pos 0; credit = x; vat_code = [] }

-- The lines of a domestic purchase.
abbrev domestic_lines : Text → Amount → Amount → List Line
domestic_lines cost_account net v =
    debit_line cost_account net
    ∷ debit_line (bytes "2640") v
    ∷ credit_line (bytes "2440") (add net v)
    ∷ []

-- The lines of a reverse charge, the net on account `acct`.
abbrev reverse_charge_lines : Text → Amount → Amount → List Line
reverse_charge_lines acct net v =
    debit_line acct net
    ∷ credit_line (bytes "2440") net
    ∷ credit_line (bytes "2614") v
    ∷ debit_line (bytes "2645") v
    ∷ []

unfoldable pub purchase_lines : Text → Amount → PurchaseCode → List Line
unfolding domestic_rate vat add text_eq
purchase_lines cost_account net code = elim (domestic_rate code) [
  | some rate ↦ domestic_lines cost_account net (vat net rate)
  | none ↦
      if text_eq code peu || text_eq code pimp
      then reverse_charge_lines (if text_eq code pimp then bytes "4531" else bytes "4535") net
          (vat net rate25)
      else debit_line cost_account net ∷ credit_line (bytes "2440") net ∷ []
]

-- Payable
unfoldable pub payable : Amount → PurchaseCode → Amount
unfolding domestic_rate vat add
payable net code = elim (domestic_rate code) [ some rate ↦ add net (vat net rate) | none ↦ net ]

-- ValidPurchaseCode
unfoldable pub valid_purchase_code : Text → Bool
unfolding text_eq
valid_purchase_code s =
    text_eq s pd25
    || text_eq s pd12
    || text_eq s pd06
    || text_eq s peu
    || text_eq s pimp
    || text_eq s pnone
