-- ===== src/Store/Close.antt =====
-- internal/store/store_fiscalyear.go and store.go: the years of a company, and how one is closed.
pub mod Once
use pare.Common.{
  ℕ, leb, Text, bytes, text_eq, not, ◌&&◌, ◌==◌, Bool, true, false, Option, none, some, List, [],
  ◌∷◌, ◌++◌, if◌then◌else◌,
}
use pare.Common.Int.{ℤ, pos, ◌+ℤ◌, ◌-ℤ◌}
use pare.Common.Int64.{in_int64}
use pare.Common.Decimal.{decimal}
use pare.Ledger.Money.{Amount, amount_string}
use pare.Ledger.Chart.{classify}
use pare.Ledger.Verification.{Line}
use pare.Ledger.Reports.{AccountBalance, text_lt, result_of}
use pare.Store.{
  FiscalYearRow, VerificationRow, Db, StoreError, Outcome, failed, done, and_then, Pool, find_row,
  any_row, update_rows, no_rows, out_of_range, foreign_company, year_closed, nothing_to_close,
  nil_uuid,
}
use pare.Store.Env.{Env}
use pare.Store.Audit.{Actor}
use pare.Store.Posting.{Posting}
use pare.Store.Period.{set_locked_through}
use pare.Store.FiscalYear.{close_lines}
use pare.Store.Act.{
  Act, pure, lift, from, read, transaction, guard, exec, exec_rows, post, log, ◌>>=◌, ◌>>◌,
}

-- SUM(debit_ore - credit_ore) GROUP BY account ORDER BY account, over one more line.
unfoldable pub sum_into : Text → ℤ → List (Text × ℤ) → List (Text × ℤ)
unfolding text_eq text_lt ◌+ℤ◌
sum_into k x [] = (k, x) ∷ []
sum_into k x ((j, n) ∷ m) =
    if text_eq j k
    then (j, n +ℤ x) ∷ m
    else if text_lt j k
    then (j, n) ∷ sum_into k x m
    else (k, x) ∷ (j, n) ∷ m

unfoldable pub sum_lines : List Line → List (Text × ℤ) → List (Text × ℤ)
unfolding sum_into ◌-ℤ◌
sum_lines [] m = m
sum_lines (l ∷ ls) m = sum_into l.account (l.debit -ℤ l.credit) (sum_lines ls m)

unfoldable pub sum_rows : (VerificationRow → Bool) → List VerificationRow → List (Text × ℤ)
unfolding sum_lines
sum_rows p [] = []
sum_rows p (v ∷ vs) = let rest = sum_rows p vs in if p v then sum_lines v.lines rest else rest

-- `::BIGINT`, which fails on a sum that is out of range, and ledger.Classify of each account.
unfoldable pub to_balances : List (Text × ℤ) → Outcome (List AccountBalance)
unfolding classify
to_balances [] = done []
to_balances ((k, n) ∷ m) =
    if in_int64 n
    then and_then (to_balances m)
        (λ rest. done (record { account = k; class = classify k; net = n } ∷ rest))
    else failed out_of_range

-- Store.TrialBalance
unfoldable pub trial_balance : Text → Db → Outcome (List AccountBalance)
unfolding sum_rows to_balances text_eq
trial_balance company db =
    to_balances (sum_rows (λ v. text_eq v.company_id company) db.verifications)

-- Store.TrialBalanceBetween
unfoldable pub trial_balance_between : Text → ℕ → ℕ → Db → Outcome (List AccountBalance)
unfolding sum_rows to_balances text_eq
trial_balance_between company start end db = to_balances (
    sum_rows (λ v. text_eq v.company_id company && leb start v.date && leb v.date end)
      db.verifications)

-- Store.TrialBalanceBetweenExclSeries
unfoldable pub trial_balance_between_excl_series :
    Text → ℕ → ℕ → Text → Db → Outcome (List AccountBalance)
unfolding sum_rows to_balances text_eq
trial_balance_between_excl_series company start end series db = to_balances (
    sum_rows
      (λ v.
        text_eq v.company_id company
        && leb start v.date
        && leb v.date end
        && not (text_eq v.series series))
      db.verifications)

-- Store.TrialBalanceAsOf
unfoldable pub trial_balance_as_of : Text → ℕ → Db → Outcome (List AccountBalance)
unfolding sum_rows to_balances text_eq
trial_balance_as_of company to db =
    to_balances (sum_rows (λ v. text_eq v.company_id company && leb v.date to) db.verifications)

abbrev pub has_year_id : Text → FiscalYearRow → Bool
has_year_id id r = text_eq r.id id

-- Queries.CloseFiscalYear: `WHERE id = $1 AND company_id = $2 AND closed_at IS NULL`
abbrev pub is_open_year : Text → Text → FiscalYearRow → Bool
is_open_year company id r = text_eq r.id id && text_eq r.company_id company && not r.closed

abbrev or_nothing_to_close : Option (List Line) → Outcome (List Line)
or_nothing_to_close none = failed nothing_to_close
or_nothing_to_close (some ls) = done ls

-- The lines of the close, and the result of the year.
unfoldable pub closing_of : Text → FiscalYearRow → Db → Outcome (List Line × Amount)
unfolding trial_balance_between_excl_series close_lines result_of
closing_of company fy db =
    and_then (trial_balance_between_excl_series company fy.starts_on fy.ends_on (bytes "O") db)
      (λ tb. and_then (or_nothing_to_close (close_lines tb)) (λ lines. done (lines, result_of tb)))

-- Store.EnsureFiscalYear; `start` and `end` are the first and the last day of the year.
unfoldable pub ensure_fiscal_year : Text → Text → ℕ → ℕ → ℕ → Act (Unit {0})
unfolding text_eq decimal
ensure_fiscal_year new_id company year start end = exec (λ db. record db {
  fiscal_years =
      if any_row (λ r. text_eq r.company_id company && r.starts_on == start) db.fiscal_years
      then db.fiscal_years
      else db.fiscal_years
        ++ record {
          id = new_id;
          company_id = company;
          label = decimal year;
          starts_on = start;
          ends_on = end;
          closed = false;
        }
          ∷ [];
})

module _ (env : Env) (actor : Option Actor) (pool : Pool) where
  -- Store.CloseFiscalYear; the verifikat gets `new_id`.
  unfoldable pub close_fiscal_year : Text → Text → Text → Act Text
  unfolding text_eq closing_of set_locked_through amount_string ◌>>=◌
  close_fiscal_year new_id company fy_id = do
    fy ← read (λ db. find_row (has_year_id fy_id) db.fiscal_years) no_rows
    guard (text_eq fy.company_id company) foreign_company
    guard (not fy.closed) year_closed
    c ← from (closing_of company fy)
    transaction pool (do
      post new_id (record {
        company_id = company;
        series = bytes "O";
        date = fy.ends_on;
        description = bytes "Bokslut " ++ fy.label;
        lines = c.0;
        reversal_of = nil_uuid;
      })
      exec_rows (λ db. any_row (is_open_year company fy_id) db.fiscal_years) year_closed
          (λ db. record db {
            fiscal_years =
                update_rows (is_open_year company fy_id) (λ r. record r { closed = true })
                  db.fiscal_years;
          })
      exec (λ db. record db {
        companies = set_locked_through company (some fy.ends_on) db.companies;
      })
      log env.mac actor company (bytes "close_fiscal_year") (bytes "fiscal_year") fy_id
          (bytes "bokslut " ++ (fy.label ++ (bytes ", resultat " ++ amount_string c.1)))
      pure new_id)
