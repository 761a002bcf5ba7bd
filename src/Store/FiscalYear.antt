-- ===== src/Store/FiscalYear.antt =====
-- internal/store/store_fiscalyear.go: the lines with which CloseFiscalYear closes a year.
pub mod Balance
use pare.Common.{Text, bytes, not, ◌||◌, Option, none, some, List, [], ◌∷◌, ◌++◌, if◌then◌else◌}
use pare.Common.Int.{pos, eqb_ℤ}
use pare.Common.Int64.{neg}
use pare.Ledger.Money.{Amount, is_pos}
use pare.Ledger.Chart.{is_result}
use pare.Ledger.Verification.{Line}
use pare.Ledger.Reports.{AccountBalance, result_of}
use pare.Store.Payment.{debit_line, credit_line}

-- The loop over the trial balance: each result account with a balance is emptied.
unfoldable pub emptying_lines : List AccountBalance → List Line
unfolding is_result neg
emptying_lines [] = []
emptying_lines (r ∷ tb) =
    let rest = emptying_lines tb in
    if not (is_result r.class) || eqb_ℤ r.net (pos 0)
    then rest
    else if is_pos r.net
    then credit_line r.account r.net ∷ rest
    else debit_line r.account (neg r.net) ∷ rest

-- The line of Årets resultat.
unfoldable pub result_line : Amount → Line
unfolding neg
result_line result =
    if is_pos result
    then credit_line (bytes "2099") result
    else debit_line (bytes "2099") (neg result)

-- The lines to post; none is ErrNothingToClose.
unfoldable pub close_lines : List AccountBalance → Option (List Line)
unfolding emptying_lines result_of result_line
close_lines tb = elim (emptying_lines tb) [
  | [] ↦ none
  | l ∷ ls ↦ some ((l ∷ ls) ++ result_line (result_of tb) ∷ [])
]
