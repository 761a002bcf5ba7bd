-- ===== src/Store/Examples.antt =====
-- A small database, and the theorems of internal/store at it.
use pare.Common.{Option, some, ◌≡◌, refl, Text, bytes, text_eq, none, List, [], ◌∷◌, true, arith}
use pare.Common.Int.{negsuc, pos, ◌+ℤ◌, ◌-ℤ◌}
use pare.Common.Int64.{add, sub, neg, wrap}
use pare.Ledger.Verification.{Line, Verification, Error, line_side, validate_lines}
use pare.Store.{
  no_profile, Db, InvoiceRow, finalized, Outcome, failed, done, nil_uuid, unknown_account,
}
use pare.Store.Act.Steps.{up}
use pare.Store.Audit.{log_audit}
use pare.Store.Posting.{Posting, row_of, post_verification}
use pare.Store.Period.{lock_period}
use pare.Store.Payment.{debit_line, credit_line, settlement}
use pare.Ledger.Chart.{class_asset, class_income, class_expense}
use pare.Ledger.Reports.{AccountBalance}
use pare.Store.FiscalYear.{close_lines}
use pare.Store.Payment.Cleared.{IsSettled, settlement-IsSettled}

abbrev pub company : Text
company = bytes "c1"

abbrev pub open_books : Db
open_books = record {
  companies =
      record { id = company; dek_wrapped = []; locked_through = none; profile = no_profile } ∷ [];
  accounts =
      record { company_id = company; number = bytes "1930" }
      ∷ record { company_id = company; number = bytes "3001" }
      ∷ [];
  verifications = [];
  audit_log = [];
  counterparties = [];
  invoices = [];
  number_seq = [];
  supplier_invoices = [];
  bank_transactions = [];
  fiscal_years = [];
  shield_tokens = [];
  documents = [];
}

abbrev pub sale : Posting
sale = record {
  company_id = company;
  series = bytes "A";
  date = 100;
  description = bytes "Kontantförsäljning";
  lines = debit_line (bytes "1930") (pos 500) ∷ credit_line (bytes "3001") (pos 500) ∷ [];
  reversal_of = nil_uuid;
}

abbrev pub with_sale : Db
with_sale = record open_books { verifications = row_of (bytes "v1") 1 sale ∷ [] }

-- A stand-in for the keyed hash, which marks what it was given.
abbrev pub mark : Text → Text
mark s = b'h' ∷ s

sale_is_posted : post_verification (bytes "v1") sale open_books ≡ done with_sale
unfolding post_verification text_eq add wrap ◌+ℤ◌
sale_is_posted = refl

unknown_is_refused :
    post_verification (bytes "v1") sale (record open_books { accounts = [] })
    ≡ failed (unknown_account (bytes "1930"))
unfolding post_verification text_eq add wrap ◌+ℤ◌
unknown_is_refused = refl

-- The log of the sale, and the lock after it.
abbrev locked_books : Db
locked_books = (lock_period mark (λ d. []) none up company 120 (bytes "Q1") with_sale).1

abbrev log_of : Db → Outcome Db
log_of = log_audit mark none company (bytes "undo") (bytes "verification") (bytes "v1") []

abbrev db_of : Outcome Db → Db
db_of (failed e) = open_books
db_of (done db) = db

log_is_written : log_of open_books ≡ done (db_of (log_of open_books))
unfolding log_audit text_eq
log_is_written = refl

-- 1000 kr in SEK, 400 kr paid already, and 599,50 kr paid now.
abbrev pub invoice : InvoiceRow
invoice = record {
  id = bytes "i1";
  company_id = company;
  counterparty_id = bytes "k1";
  number = bytes "2025-0001";
  status = finalized;
  invoice_date = some 100;
  due_date = some 130;
  currency = bytes "SEK";
  rate_ppm = pos 1000000;
  amount_paid = pos 40000;
  verification_id = some (bytes "v0");
  payment_verification_id = none;
  paid_at = none;
  credits_invoice_id = none;
  lines = [];
}

abbrev rounded_lines : List Line
rounded_lines =
    debit_line (bytes "1930") (pos 59950)
    ∷ credit_line (bytes "1510") (pos 59950)
    ∷ credit_line (bytes "1510") (pos 50)
    ∷ debit_line (bytes "3740") (pos 50)
    ∷ []

payment_is_accepted :
    settlement company invoice (bytes "1930") (pos 100000) (pos 59950) ≡ done (rounded_lines, true)
unfolding settlement text_eq wrap sub add neg ◌+ℤ◌ ◌-ℤ◌
payment_is_accepted = refl

settlement-IsSettled_example : IsSettled 100000 40000 59950 (rounded_lines, true)
unfolding text_eq
settlement-IsSettled_example =
    settlement-IsSettled company invoice (bytes "1930") 40000 100000 59950 (rounded_lines, true)
      (λ e. cc) refl refl (omega arith) (omega arith) (omega arith) payment_is_accepted

-- A year of 900 kr of sales and 500 kr of costs.
abbrev year : List AccountBalance
year =
    record { account = bytes "1930"; class = class_asset; net = pos 40000 }
    ∷ record { account = bytes "3001"; class = class_income; net = negsuc 89999 }
    ∷ record { account = bytes "5010"; class = class_expense; net = pos 50000 }
    ∷ []

abbrev closing : Verification
closing = record {
  series = bytes "O";
  number = pos 1;
  date = 365;
  description = bytes "Bokslut 2025";
  lines =
      debit_line (bytes "3001") (pos 90000)
      ∷ credit_line (bytes "5010") (pos 50000)
      ∷ credit_line (bytes "2099") (pos 40000)
      ∷ [];
  reversal_of = [];
}

year_is_closed : close_lines year ≡ some closing.lines
unfolding close_lines add wrap ◌+ℤ◌ ◌-ℤ◌
year_is_closed = refl

-- A year of 900 kr of sales and as much of costs: the line of the result is zero.
abbrev even_year : List AccountBalance
even_year =
    record { account = bytes "3001"; class = class_income; net = negsuc 89999 }
    ∷ record { account = bytes "5010"; class = class_expense; net = pos 90000 }
    ∷ []

abbrev verdict : Option (List Line) → Option Error
verdict none = none
verdict (some ls) = validate_lines ls

even_year_is_refused : verdict (close_lines even_year) ≡ some line_side
unfolding close_lines validate_lines add wrap ◌+ℤ◌ ◌-ℤ◌
even_year_is_refused = refl
