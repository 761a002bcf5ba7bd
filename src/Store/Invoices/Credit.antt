-- ===== src/Store/Invoices/Credit.antt =====
-- internal/store/store_invoice.go: CreditInvoice, which takes an invoice back.
use pare.Common.{ℕ, Text, bytes, text_eq, Option, none, some, List, [], ◌++◌, map}
use pare.Ledger.Verification.{Line, swap_sides}
use pare.Store.{
  InvoiceRow, Db, credited, find_row, update_rows, is_creditable, Pool, no_rows, not_unique,
  foreign_company, not_finalized, uuid_from_pg,
}
use pare.Store.Env.{Env}
use pare.Store.Audit.{Actor}
use pare.Store.Act.{Act, pure, read, gets, transaction, guard, exec, post, log, ◌>>=◌, ◌>>◌}
use pare.Store.Invoices.{
  has_invoice_id, is_row, invoice_of, next_no, set_no, alloc_invoice_number, invoice_number,
  number_is_free, finalize_rows, create_invoice,
}

-- `ListVerificationLinesByVerification`
abbrev pub lines_of : Text → Db → List Line
lines_of id db = elim (find_row (λ v. text_eq v.id id) db.verifications) [
  | none ↦ []
  | some v ↦ v.lines
]

module _ (env : Env) (actor : Option Actor) (pool : Pool) where
  -- The last transaction of CreditInvoice, dated today.
  abbrev credit : Text → Text → Text → InvoiceRow → List Line → ℕ → Act (Text × Text)
  credit credit_id new_id company orig rev_lines today = do
    seq ← alloc_invoice_number company (env.year_of today)
    let number = invoice_number (env.year_of today) seq
    post new_id (record {
      company_id = company;
      series = bytes "F";
      date = today;
      description = bytes "Kreditfaktura " ++ (number ++ (bytes " avser " ++ orig.number));
      lines = rev_lines;
      reversal_of = uuid_from_pg orig.verification_id;
    })
    free ← gets (number_is_free company number)
    guard free not_unique
    exec (finalize_rows company credit_id number today today new_id)
    exec (λ db. record db {
      invoices =
          update_rows (is_row is_creditable company orig.id) (λ r. record r { status = credited })
            db.invoices;
    })
    log env.mac actor company (bytes "credit_invoice") (bytes "invoice") orig.id
        (bytes "kreditfaktura " ++ number)
    pure (credit_id, number)

  -- Store.CreditInvoice; the credit note gets `credit_id`, and its verifikat `new_id`.
  unfoldable pub credit_invoice : Text → Text → Text → Text → ℕ → Act (Text × Text)
  unfolding text_eq create_invoice swap_sides next_no set_no ◌>>=◌
  credit_invoice credit_id new_id company id today = do
    orig ← read (λ db. find_row (has_invoice_id id) db.invoices) no_rows
    guard (text_eq orig.company_id company) foreign_company
    guard (is_creditable orig.status) not_finalized
    create_invoice env actor pool credit_id company orig.counterparty_id (invoice_of [] 0 0 orig)
    exec (λ db. record db {
      invoices =
          update_rows (has_invoice_id credit_id) (λ r. record r { credits_invoice_id = some id })
            db.invoices;
    })
    lines ← gets (lines_of (uuid_from_pg orig.verification_id))
    transaction pool (credit credit_id new_id company orig (map swap_sides lines) today)
