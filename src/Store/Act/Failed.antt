-- ===== src/Store/Act/Failed.antt =====
-- A request to internal/store that fails leaves the database as it was, where it runs in a transaction.
use pare.Common.{Option, some, ◌≡◌, true, refl}
use pare.Store.{Db, Pool, StoreError, Outcome, failed, done}
use pare.Store.Env.{Env}
use pare.Store.Audit.{Actor}
use pare.Store.Command.{
  Command, answered, execute, is_transactional, to_post_verification, to_lock_period,
  to_unlock_period, to_create_counterparty, to_update_counterparty, to_erase_counterparty,
  to_create_invoice, to_finalize_invoice, to_delete_draft_invoice, to_record_payment,
  to_record_payment_by_number, to_credit_invoice, to_create_supplier_invoice,
  to_finalize_supplier_invoice, to_record_supplier_payment, to_import_bank_statement,
  to_book_bank_txn_to_invoice, to_book_bank_txn_to_account, to_ignore_bank_txn,
  to_undo_verification, to_import_sie, to_ensure_fiscal_year, to_close_fiscal_year,
  to_save_document, to_attach_document_to_supplier, to_delete_document, to_update_company_profile,
  to_backfill_document_pii, to_log_user_action,
}
use pare.Store.Posting.{public_post_verification}
use pare.Store.Period.{lock_period, unlock_period}
use pare.Store.Invoices.{create_invoice, finalize_invoice}
use pare.Store.Invoices.Payments.{record_payment, record_payment_by_number}
use pare.Store.Suppliers.{finalize_supplier_invoice, record_supplier_payment}
use pare.Store.Views.{log_user_action}
use pare.Store.Bank.{book_bank_txn_to_account, ignore_bank_txn}
use pare.Store.Undo.{undo_verification}
use pare.Store.Import.{import_sie}
use pare.Store.Close.{close_fiscal_year}
use pare.Store.Act.Operations.{
  IsUndone-public_post_verification, IsUndone-lock_period, IsUndone-unlock_period,
  IsUndone-create_invoice, IsUndone-finalize_invoice, IsUndone-record_payment,
  IsUndone-record_payment_by_number, IsUndone-finalize_supplier_invoice,
  IsUndone-record_supplier_payment, IsUndone-book_bank_txn_to_account, IsUndone-log_user_action,
  IsUndone-ignore_bank_txn, IsUndone-undo_verification, IsUndone-import_sie,
  IsUndone-close_fiscal_year,
}

answered_undone :
    {A : Type 0} (r : Outcome A × Db) (db : Db) (e : StoreError)
    → ((x : StoreError) → r.0 ≡ failed x → r.1 ≡ db)
    → (answered r).0 ≡ some e
    → (answered r).1 ≡ db
answered_undone (failed x, db') db e k h = k x refl
answered_undone (done a, db') db e k h = absurd (cc)

-- Where one of these operations answers an error, whatever its arguments and the error, the database
-- is as it was before: PostVerification, LockPeriod, UnlockPeriod, CreateInvoice, FinalizeInvoice,
-- RecordPayment, RecordPaymentByNumber, FinalizeSupplierInvoice, RecordSupplierPayment,
-- BookBankTxnToAccount, IgnoreBankTxn, UndoVerification, ImportSIE, CloseFiscalYear and LogUserAction.
pub execute_undone :
    (env : Env) (actor : Option Actor) (pool : Pool) (c : Command) (db : Db) (e : StoreError)
    → is_transactional c ≡ true
    → (execute env actor pool c db).0 ≡ some e
    → (execute env actor pool c db).1 ≡ db
unfolding execute
execute_undone env actor pool (to_post_verification new_id p) db e t h =
    answered_undone (public_post_verification env.mac actor pool new_id p db) db e
      ((IsUndone-public_post_verification env actor pool new_id p).at db) h
execute_undone env actor pool (to_lock_period company through reason) db e t h =
    answered_undone (lock_period env.mac env.format_date actor pool company through reason db) db e
      ((IsUndone-lock_period env actor pool company through reason).at db) h
execute_undone env actor pool (to_unlock_period company reason) db e t h =
    answered_undone (unlock_period env.mac env.format_date actor pool company reason db) db e
      ((IsUndone-unlock_period env actor pool company reason).at db) h
execute_undone env actor pool (to_create_counterparty new_id nonces company cp) db e t h =
    absurd (cc)
execute_undone env actor pool (to_update_counterparty nonces company id cp) db e t h = absurd (cc)
execute_undone env actor pool (to_erase_counterparty nonce company id) db e t h = absurd (cc)
execute_undone env actor pool (to_create_invoice new_id company counterparty_id inv) db e t h =
    answered_undone (create_invoice env actor pool new_id company counterparty_id inv db) db e
      ((IsUndone-create_invoice env actor pool new_id company counterparty_id inv).at db) h
execute_undone env actor pool (to_finalize_invoice new_id company id date due) db e t h =
    answered_undone (finalize_invoice env actor pool new_id company id date due db) db e
      ((IsUndone-finalize_invoice env actor pool new_id company id date due).at db) h
execute_undone env actor pool (to_delete_draft_invoice company id) db e t h = absurd (cc)
execute_undone env actor pool (to_record_payment new_id company id date account payment) db e t h =
    answered_undone (record_payment env actor pool new_id company id date account payment db) db e
      ((IsUndone-record_payment env actor pool new_id company id date account payment).at db) h
execute_undone env actor pool
      (to_record_payment_by_number new_id company number date account payment) db e t h =
    answered_undone
      (record_payment_by_number env actor pool new_id company number date account payment db) db e
      ((IsUndone-record_payment_by_number env actor pool new_id company number date account
          payment).at
        db)
      h
execute_undone env actor pool (to_credit_invoice credit_id new_id company id today) db e t h =
    absurd (cc)
execute_undone env actor pool
      (to_create_supplier_invoice new_id company counterparty_id supplier_number date due
        cost_account net code description)
      db e t h =
    absurd (cc)
execute_undone env actor pool (to_finalize_supplier_invoice new_id company id) db e t h =
    answered_undone (finalize_supplier_invoice env actor pool new_id company id db) db e
      ((IsUndone-finalize_supplier_invoice env actor pool new_id company id).at db) h
execute_undone env actor pool (to_record_supplier_payment new_id company id date account amount) db
      e t h =
    answered_undone
      (record_supplier_payment env actor pool new_id company id date account amount db) db e
      ((IsUndone-record_supplier_payment env actor pool new_id company id date account amount).at
        db)
      h
execute_undone env actor pool (to_import_bank_statement company bank_account entries) db e t h =
    absurd (cc)
execute_undone env actor pool (to_book_bank_txn_to_invoice new_id company id invoice_id) db e t h =
    absurd (cc)
execute_undone env actor pool (to_book_bank_txn_to_account new_id company id account) db e t h =
    answered_undone (book_bank_txn_to_account env actor pool new_id company id account db) db e
      ((IsUndone-book_bank_txn_to_account env actor pool new_id company id account).at db) h
execute_undone env actor pool (to_ignore_bank_txn company id) db e t h =
    answered_undone (ignore_bank_txn env actor pool company id db) db e
      ((IsUndone-ignore_bank_txn env actor pool company id).at db) h
execute_undone env actor pool (to_undo_verification new_id company ver_id today) db e t h =
    answered_undone (undo_verification env actor pool new_id company ver_id today db) db e
      ((IsUndone-undo_verification env actor pool new_id company ver_id today).at db) h
execute_undone env actor pool (to_import_sie ids company exp today) db e t h =
    answered_undone (import_sie env actor pool ids company exp today db) db e
      ((IsUndone-import_sie env actor pool ids company exp today).at db) h
execute_undone env actor pool (to_ensure_fiscal_year new_id company year start end) db e t h =
    absurd (cc)
execute_undone env actor pool (to_close_fiscal_year new_id company fy_id) db e t h =
    answered_undone (close_fiscal_year env actor pool new_id company fy_id db) db e
      ((IsUndone-close_fiscal_year env actor pool new_id company fy_id).at db) h
execute_undone env actor pool
      (to_save_document new_id nonces now company filename mime content note) db e t h =
    absurd (cc)
execute_undone env actor pool (to_attach_document_to_supplier company id supplier) db e t h =
    absurd (cc)
execute_undone env actor pool (to_delete_document company id) db e t h = absurd (cc)
execute_undone env actor pool (to_update_company_profile company profile) db e t h = absurd (cc)
execute_undone env actor pool (to_backfill_document_pii draws) db e t h = absurd (cc)
execute_undone env actor pool (to_log_user_action company action target_type target_id detail) db e
      t h =
    answered_undone (log_user_action env actor company action target_type target_id detail db) db e
      ((IsUndone-log_user_action env actor pool company action target_type target_id detail).at db)
      h
