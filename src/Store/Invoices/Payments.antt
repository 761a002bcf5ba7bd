-- ===== src/Store/Invoices/Payments.antt =====
-- internal/store/store_payment.go: what is paid on an invoice.
pub mod Refused
use pare.Common.{
  ℕ, Text, bytes, text_eq, not, ◌&&◌, true, Option, none, some, [], ◌∷◌, ◌++◌, if◌then◌else◌,
}
use pare.Common.Int.{◌+ℤ◌}
use pare.Common.Int64.{add, in_int64}
use pare.Ledger.Money.{Amount, amount_string}
use pare.Invoice.{gross_sek}
use pare.Store.{
  InvoiceRow, Db, paid, find_row, any_row, update_rows, is_finalized, Outcome, failed, done,
  and_then, Pool, get_company, no_rows, nil_uuid, foreign_company, not_finalized, out_of_range,
  invoice_not_found,
}
use pare.Store.Env.{Env}
use pare.Store.Audit.{Actor}
use pare.Store.Payment.{Settlement, payment_allowed, settlement}
use pare.Store.Counterparty.{get_counterparty}
use pare.Store.Act.{
  Act, pure, lift, from, read, transaction, guard, exec, exec_rows, post, log, ◌>>=◌, ◌>>◌,
}
use pare.Store.Invoices.{has_invoice_id, is_row, invoice_of}

module _ (env : Env) (actor : Option Actor) (pool : Pool) where
  -- Store.InvoiceForRender, of which the callers here read TotalSEK: the company and the customer
  -- must load too.
  unfoldable pub total_sek_for_render : Text → Text → Db → Outcome Amount
  unfolding text_eq get_company get_counterparty gross_sek
  total_sek_for_render company id db = elim (find_row (has_invoice_id id) db.invoices) [
    | none ↦ failed no_rows
    | some inv ↦
        if not (text_eq inv.company_id company)
        then failed foreign_company
        else elim (get_company company db.companies) [
          | none ↦ failed no_rows
          | some co ↦
              and_then (get_counterparty env company inv.counterparty_id db)
                (λ customer. done (gross_sek (invoice_of [] 0 0 inv)))
        ]
  ]

  -- The transaction of RecordPayment.
  abbrev pub settle : Text → Text → InvoiceRow → ℕ → Amount → Settlement → Act Text
  settle new_id company inv date payment (lines, fully_paid) = do
    post new_id (record {
      company_id = company;
      series = bytes "B";
      date = date;
      description = bytes "Betalning faktura " ++ inv.number;
      lines = lines;
      reversal_of = nil_uuid;
    })
    guard (in_int64 (inv.amount_paid +ℤ payment)) out_of_range
    exec (λ db. record db {
      invoices =
          update_rows (is_row (λ _. true) company inv.id)
            (λ r. record r { amount_paid = add r.amount_paid payment }) db.invoices;
    })
    if fully_paid
        then exec_rows (λ db. any_row (is_row is_finalized company inv.id) db.invoices)
            not_finalized
            (λ db. record db {
              invoices =
                  update_rows (is_row is_finalized company inv.id)
                    (λ r. record r {
                      status = paid;
                      paid_at = some date;
                      payment_verification_id = some new_id;
                    })
                    db.invoices;
            })
        else pure tt
    log env.mac actor company (bytes "record_payment") (bytes "invoice") inv.id
        (inv.number ++ b' ' ∷ (amount_string payment ++ bytes " SEK"))
    pure new_id

  -- Store.RecordPayment
  unfoldable pub record_payment : Text → Text → Text → ℕ → Text → Amount → Act Text
  unfolding text_eq payment_allowed settlement total_sek_for_render add ◌>>=◌
  record_payment new_id company id date account payment = do
    inv ← read (λ db. find_row (has_invoice_id id) db.invoices) no_rows
    lift (payment_allowed company inv payment)
    gross ← from (total_sek_for_render company id)
    s ← lift (settlement company inv account gross payment)
    transaction pool (settle new_id company inv date payment s)

  -- Store.RecordPaymentByNumber
  unfoldable pub record_payment_by_number : Text → Text → Text → ℕ → Text → Amount → Act Text
  unfolding text_eq record_payment ◌>>=◌
  record_payment_by_number new_id company number date account payment = do
    inv ←
        read
          (λ db.
            find_row (λ r. text_eq r.company_id company && text_eq r.number number) db.invoices)
          invoice_not_found
    record_payment new_id company inv.id date account payment
