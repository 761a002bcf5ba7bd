-- ===== src/Store/Suppliers.antt =====
-- internal/store/store_supplier.go: supplier invoices, from the draft to their payment.
pub mod Paid
use pare.Common.{
  ℕ, Text, bytes, text_eq, is_empty, not, ◌&&◌, Bool, true, false, Option, none, some, List, [],
  ◌∷◌, ◌++◌, if◌then◌else◌,
}
use pare.Common.Int.{pos, eqb_ℤ, leb_ℤ, ltb_ℤ}
use pare.Common.Int64.{sub, neg}
use pare.Ledger.Money.{Amount, is_pos, amount_string}
use pare.Ledger.Verification.{Line}
use pare.Moms.Purchase.{PurchaseCode, valid_purchase_code, purchase_lines, payable}
use pare.Store.{
  SupplierInvoiceRow, Db, Status, draft, finalized, paid, find_row, any_row, update_rows, is_draft,
  is_finalized, StoreError, Outcome, failed, done, Pool, no_rows, nil_uuid, foreign_company,
  not_draft, not_finalized, payment_mismatch, unknown_vat_code, net_not_positive, pg_date_or_null,
}
use pare.Store.Env.{Env}
use pare.Store.Audit.{Actor}
use pare.Store.Posting.{Posting}
use pare.Store.Payment.{debit_line, credit_line, abs_amount, ores_rounding_threshold}
use pare.Store.Counterparty.{has_id}
use pare.Store.Act.{
  Act, pure, lift, read, transaction, guard, exec, exec_rows, post, log, ◌>>=◌, ◌>>◌,
}

abbrev pub has_supplier_id : Text → SupplierInvoiceRow → Bool
has_supplier_id id r = text_eq r.id id

-- `WHERE id = $1 AND company_id = $2`, and a condition on the status.
abbrev pub is_supplier_row : (Status → Bool) → Text → Text → SupplierInvoiceRow → Bool
is_supplier_row p company id r = text_eq r.id id && text_eq r.company_id company && p r.status

-- `row.InvoiceDate.Time`, which is the zero time for NULL.
abbrev time_of : Option ℕ → ℕ
time_of none = 0
time_of (some d) = d

-- `desc`, with the supplier's own number if there is one.
abbrev described : Text → SupplierInvoiceRow → Text
described desc row =
    if is_empty row.supplier_number then desc else desc ++ b' ' ∷ row.supplier_number

-- The lines of RecordSupplierPayment.
unfoldable pub supplier_payment_lines : Text → Amount → Amount → Outcome (List Line)
unfolding sub neg abs_amount
supplier_payment_lines account gross amount =
    let diff = sub gross amount in
    let lines = debit_line (bytes "2440") gross ∷ credit_line account amount ∷ [] in
    if leb_ℤ amount (pos 0)
    then failed payment_mismatch
    else if eqb_ℤ diff (pos 0)
    then done lines
    else if not (ltb_ℤ (abs_amount diff) ores_rounding_threshold)
    then failed payment_mismatch
    else if is_pos diff
    then done (lines ++ credit_line (bytes "3740") diff ∷ [])
    else done (lines ++ debit_line (bytes "3740") (neg diff) ∷ [])

module _ (env : Env) (actor : Option Actor) (pool : Pool) where
  -- Store.CreateSupplierInvoice; the row gets `new_id`.
  unfoldable pub create_supplier_invoice :
      Text → Text → Text → Text → ℕ → ℕ → Text → Amount → PurchaseCode → Text → Act Text
  unfolding text_eq valid_purchase_code pg_date_or_null ◌>>=◌
  create_supplier_invoice new_id company counterparty_id supplier_number date due cost_account net
        code description =
      do
        guard (valid_purchase_code code) unknown_vat_code
        guard (is_pos net) net_not_positive
        cp ← read (λ db. find_row (has_id counterparty_id) db.counterparties) no_rows
        guard (text_eq cp.company_id company) foreign_company
        exec (λ db. record db {
          supplier_invoices =
              db.supplier_invoices
              ++ record {
                id = new_id;
                company_id = company;
                counterparty_id = counterparty_id;
                supplier_number = supplier_number;
                invoice_date = pg_date_or_null date;
                due_date = pg_date_or_null due;
                cost_account = cost_account;
                net = net;
                vat_code = code;
                description = description;
                status = draft;
                verification_id = none;
                payment_verification_id = none;
                paid_at = none;
              }
                ∷ [];
        })
        log env.mac actor company (bytes "create_supplier_invoice") (bytes "supplier_invoice")
            new_id code
        pure new_id

  -- Store.FinalizeSupplierInvoice; the verifikat gets `new_id`.
  unfoldable pub finalize_supplier_invoice : Text → Text → Text → Act Text
  unfolding text_eq purchase_lines ◌>>=◌
  finalize_supplier_invoice new_id company id = do
    row ← read (λ db. find_row (has_supplier_id id) db.supplier_invoices) no_rows
    guard (text_eq row.company_id company) foreign_company
    guard (is_draft row.status) not_draft
    transaction pool (do
      post new_id (record {
        company_id = company;
        series = bytes "L";
        date = time_of row.invoice_date;
        description = described (bytes "Leverantörsfaktura") row;
        lines = purchase_lines row.cost_account row.net row.vat_code;
        reversal_of = nil_uuid;
      })
      exec_rows (λ db. any_row (is_supplier_row is_draft company id) db.supplier_invoices) not_draft
          (λ db. record db {
            supplier_invoices =
                update_rows (is_supplier_row is_draft company id)
                  (λ r. record r { status = finalized; verification_id = some new_id })
                  db.supplier_invoices;
          })
      log env.mac actor company (bytes "finalize_supplier_invoice") (bytes "supplier_invoice") id
          row.vat_code
      pure new_id)

  -- Store.RecordSupplierPayment; the verifikat gets `new_id`.
  unfoldable pub record_supplier_payment : Text → Text → Text → ℕ → Text → Amount → Act Text
  unfolding text_eq payable supplier_payment_lines ◌>>=◌
  record_supplier_payment new_id company id date account amount = do
    row ← read (λ db. find_row (has_supplier_id id) db.supplier_invoices) no_rows
    guard (text_eq row.company_id company) foreign_company
    guard (is_finalized row.status) not_finalized
    let gross = payable row.net row.vat_code
    lines ← lift (supplier_payment_lines account gross amount)
    transaction pool (do
      post new_id (record {
        company_id = company;
        series = bytes "LB";
        date = date;
        description = described (bytes "Betalning leverantörsfaktura") row;
        lines = lines;
        reversal_of = nil_uuid;
      })
      exec_rows (λ db. any_row (is_supplier_row is_finalized company id) db.supplier_invoices)
          not_finalized
          (λ db. record db {
            supplier_invoices =
                update_rows (is_supplier_row is_finalized company id)
                  (λ r. record r {
                    status = paid;
                    paid_at = some date;
                    payment_verification_id = some new_id;
                  })
                  db.supplier_invoices;
          })
      log env.mac actor company (bytes "record_supplier_payment") (bytes "supplier_invoice") id
          (amount_string gross ++ bytes " SEK")
      pure new_id)
