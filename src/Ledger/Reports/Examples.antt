-- ===== src/Ledger/Reports/Examples.antt =====
-- The verifikat of TestBuildStatementsBalances (internal/ledger/statements_test.go), and the
-- theorems at them.
use pare.Common.{ℕ, bytes, ◌≡◌, refl, List, [], ◌∷◌, arith, Text, text_eq}
use pare.Common.Int.{pos, ◌+ℤ◌, ◌-ℤ◌}
use pare.Common.Int64.{add, wrap}
use pare.Ledger.Chart.{classify}
use pare.Ledger.Verification.{Line, Verification, validate}
use pare.Ledger.Reports.{Namer, trial_balance, result, build_statements_period}
use pare.Ledger.Reports.Balanced.{AreValid}
use pare.Ledger.Reports.Identity.{asset_total-build_statements_period}
use pare.Ledger.Reports.OpenYear.{AreClassified}

abbrev debit : Text → ℕ → Line
debit a x = record { account = a; debit = pos x; credit = pos 0; vat_code = [] }

abbrev credit : Text → ℕ → Line
credit a x = record { account = a; debit = pos 0; credit = pos x; vat_code = [] }

abbrev entry : List Line → Verification
entry ls = record {
  series = bytes "A";
  number = pos 1;
  date = 0;
  description = [];
  lines = ls;
  reversal_of = [];
}

abbrev invoice : Verification
invoice = entry (
    debit (bytes "1510") 1250000
    ∷ credit (bytes "3001") 1000000
    ∷ credit (bytes "2611") 250000
    ∷ [])

abbrev year : List Verification
year =
    invoice
    ∷ entry (debit (bytes "1930") 1250000 ∷ credit (bytes "1510") 1250000 ∷ [])
    ∷ entry (
        debit (bytes "5010") 200000
        ∷ debit (bytes "2640") 50000
        ∷ credit (bytes "1930") 250000
        ∷ [])
    ∷ entry (debit (bytes "1930") 3000 ∷ credit (bytes "8310") 3000 ∷ [])
    ∷ []

abbrev unnamed : Namer
unnamed account = []

result_of_year : result year ≡ pos 803000
unfolding result wrap ◌-ℤ◌ text_eq ◌+ℤ◌
result_of_year = refl

year-AreValid : AreValid year
unfolding validate add wrap ◌+ℤ◌
year-AreValid =
    ((omega arith, refl), ((omega arith, refl), ((omega arith, refl), ((omega arith, refl), tt))))

asset_total-build_statements_period_example :
    let s = build_statements_period (trial_balance []) (trial_balance year) unnamed in
    s.asset_total ≡ add s.equity_total s.liability_total
asset_total-build_statements_period_example =
    asset_total-build_statements_period (trial_balance []) (trial_balance year) unnamed

open_books-AreClassified : AreClassified (trial_balance (invoice ∷ []))
unfolding trial_balance classify text_eq
open_books-AreClassified = ((λ e. cc), ((λ e. cc), ((λ e. cc), tt)))
