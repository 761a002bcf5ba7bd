-- ===== src/Store/Invoices.antt =====
-- internal/store/store_invoice.go: drafts, numbers and final invoices.
pub mod Payments
pub mod Credit
use pare.Common.{
  ℕ, suc, ◌==◌, Text, bytes, text_eq, is_empty, not, ◌&&◌, Bool, true, ltb, Option, none, some,
  List, [], ◌∷◌, ◌++◌, map, if◌then◌else◌,
}
use pare.Common.Int.{pos, eqb_ℤ, ◌+ℤ◌}
use pare.Common.Int64.{add, in_int64}
use pare.Common.Decimal.{decimal}
use pare.Ledger.Money.{Amount, amount_string}
use pare.Ledger.Verification.{Line, swap_sides}
use pare.Invoice.{Invoice, gross_sek, total, verification_lines}
use pare.Store.{
  InvoiceRow, NumberSeq, Db, Status, draft, finalized, paid, credited, find_row, any_row,
  update_rows, without, is_draft, is_finalized, is_creditable, Outcome, failed, done, and_then,
  Pool, get_company, no_rows, not_unique, nil_uuid, foreign_company, not_draft, not_finalized,
  out_of_range, invoice_not_found, pg_date_or_null, uuid_from_pg,
}
use pare.Store.Env.{Env}
use pare.Store.Audit.{Actor}
use pare.Store.Payment.{Settlement, payment_allowed, settlement}
use pare.Store.Counterparty.{has_id, get_counterparty}
use pare.Store.Act.{
  Act, pure, lift, from, read, gets, transaction, guard, exec, exec_rows, post, log, ◌>>=◌, ◌>>◌,
}

abbrev pub has_invoice_id : Text → InvoiceRow → Bool
has_invoice_id id r = text_eq r.id id

-- `WHERE id = $1 AND company_id = $2`, and a condition on the status.
abbrev pub is_row : (Status → Bool) → Text → Text → InvoiceRow → Bool
is_row p company id r = text_eq r.id id && text_eq r.company_id company && p r.status

-- The invoice of a row, as internal/invoice reads it.
abbrev pub invoice_of : Text → ℕ → ℕ → InvoiceRow → Invoice
invoice_of number date due r = record {
  number = number;
  date = date;
  due_date = due;
  currency = r.currency;
  rate_ppm = r.rate_ppm;
  lines = r.lines;
}

-- AllocInvoiceNumber
abbrev is_seq : Text → ℕ → NumberSeq → Bool
is_seq company year r = text_eq r.company_id company && r.year == year

unfoldable pub next_no : Text → ℕ → Db → ℕ
unfolding text_eq
next_no company year db = elim (find_row (is_seq company year) db.number_seq) [
  | none ↦ 1
  | some r ↦ suc r.next_no
]

unfoldable pub set_no : Text → ℕ → ℕ → List NumberSeq → List NumberSeq
unfolding text_eq
set_no company year n [] = record { company_id = company; year = year; next_no = n } ∷ []
set_no company year n (r ∷ rs) =
    let rest = set_no company year n rs in
    if is_seq company year r then (record r { next_no = n }) ∷ rs else r ∷ rest

abbrev pub alloc_invoice_number : Text → ℕ → Act ℕ
alloc_invoice_number company year = do
  n ← gets (next_no company year)
  exec (λ db. record db { number_seq = set_no company year n db.number_seq })
  pure n

-- %04d
unfoldable pub fmt_04d : ℕ → Text
unfolding decimal
fmt_04d n =
    if ltb n 10
    then b'0' ∷ b'0' ∷ b'0' ∷ decimal n
    else if ltb n 100
    then b'0' ∷ b'0' ∷ decimal n
    else if ltb n 1000
    then b'0' ∷ decimal n
    else decimal n

abbrev pub invoice_number : ℕ → ℕ → Text
invoice_number year seq = decimal year ++ b'-' ∷ fmt_04d seq

-- The unique index on the number of an invoice.
abbrev pub number_is_free : Text → Text → Db → Bool
number_is_free company number db =
    not (any_row (λ r. text_eq r.company_id company && text_eq r.number number) db.invoices)

-- Queries.FinalizeInvoice
abbrev finalize_row : Text → ℕ → ℕ → Text → InvoiceRow → InvoiceRow
finalize_row number date due verification_id r = record r {
  status = finalized;
  number = number;
  invoice_date = some date;
  due_date = pg_date_or_null due;
  verification_id = some verification_id;
}

abbrev pub finalize_rows : Text → Text → Text → ℕ → ℕ → Text → Db → Db
finalize_rows company id number date due verification_id db = record db {
  invoices =
      update_rows (is_row is_draft company id) (finalize_row number date due verification_id)
        db.invoices;
}

module _ (env : Env) (actor : Option Actor) (pool : Pool) where
  -- Store.CreateInvoice; the row gets `new_id`.
  unfoldable pub create_invoice : Text → Text → Text → Invoice → Act Text
  unfolding text_eq total ◌>>=◌
  create_invoice new_id company counterparty_id inv = do
    cp ← read (λ db. find_row (has_id counterparty_id) db.counterparties) no_rows
    guard (text_eq cp.company_id company) foreign_company
    transaction pool (do
      exec (λ db. record db {
        invoices =
            db.invoices
            ++ record {
              id = new_id;
              company_id = company;
              counterparty_id = counterparty_id;
              number = [];
              status = draft;
              invoice_date = pg_date_or_null inv.date;
              due_date = pg_date_or_null inv.due_date;
              currency = if is_empty inv.currency then bytes "SEK" else inv.currency;
              rate_ppm = if eqb_ℤ inv.rate_ppm (pos 0) then pos 1000000 else inv.rate_ppm;
              amount_paid = pos 0;
              verification_id = none;
              payment_verification_id = none;
              paid_at = none;
              credits_invoice_id = none;
              lines = inv.lines;
            }
              ∷ [];
      })
      log env.mac actor company (bytes "create_invoice") (bytes "invoice") new_id
          (amount_string (total inv))
      pure new_id)

  -- Store.FinalizeInvoice; the verifikat gets `new_id`.
  unfoldable pub finalize_invoice : Text → Text → Text → ℕ → ℕ → Act (Text × Text)
  unfolding text_eq verification_lines gross_sek next_no set_no ◌>>=◌
  finalize_invoice new_id company id date due = do
    row ← read (λ db. find_row (has_invoice_id id) db.invoices) no_rows
    guard (text_eq row.company_id company) foreign_company
    guard (is_draft row.status) not_draft
    transaction pool (do
      seq ← alloc_invoice_number company (env.year_of date)
      let number = invoice_number (env.year_of date) seq
      let inv = invoice_of number date due row
      post new_id (record {
        company_id = company;
        series = bytes "F";
        date = date;
        description = bytes "Faktura " ++ number;
        lines = verification_lines inv;
        reversal_of = nil_uuid;
      })
      free ← gets (number_is_free company number)
      guard free not_unique
      exec (finalize_rows company id number date due new_id)
      log env.mac actor company (bytes "finalize_invoice") (bytes "invoice") id
          (number ++ b' ' ∷ (amount_string (gross_sek inv) ++ bytes " SEK"))
      pure (new_id, number))

  -- Store.DeleteDraftInvoice
  unfoldable pub delete_draft_invoice : Text → Text → Act (Unit {0})
  unfolding text_eq ◌>>=◌
  delete_draft_invoice company id = do
    exec_rows (λ db. any_row (is_row is_draft company id) db.invoices) not_draft
        (λ db. record db { invoices = without (is_row is_draft company id) db.invoices })
    log env.mac actor company (bytes "delete_draft_invoice") (bytes "invoice") id []
