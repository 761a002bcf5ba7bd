-- ===== src/Store/Command.antt =====
-- The calls of operations of internal/store that write, which internal/handler and internal/mcp make.
use pare.Common.{ℕ, Text, Bool, true, false, Option, none, some, List, [], ◌∷◌}
use pare.Ledger.Money.{Amount}
use pare.Moms.Purchase.{PurchaseCode}
use pare.Invoice.{Invoice}
use pare.Bank.{Entry}
use pare.Store.{Db, Profile, Pool, StoreError, Outcome, failed, done}
use pare.Store.Env.{Env}
use pare.Store.Audit.{Actor}
use pare.Store.Posting.{public_post_verification, Posting}
use pare.Store.Period.{lock_period, unlock_period}
use pare.Store.Counterparty.{
  create_counterparty, update_counterparty, erase_counterparty, Counterparty,
}
use pare.Store.Invoices.{create_invoice, finalize_invoice, delete_draft_invoice}
use pare.Store.Invoices.Payments.{record_payment, record_payment_by_number}
use pare.Store.Invoices.Credit.{credit_invoice}
use pare.Store.Suppliers.{
  create_supplier_invoice, finalize_supplier_invoice, record_supplier_payment,
}
use pare.Store.Bank.{
  import_bank_statement, book_bank_txn_to_invoice, book_bank_txn_to_account, ignore_bank_txn,
}
use pare.Store.Undo.{undo_verification}
use pare.Store.Import.{import_sie, Export}
use pare.Store.Close.{ensure_fiscal_year, close_fiscal_year}
use pare.Store.Documents.{save_document, attach_document_to_supplier, delete_document}
use pare.Store.Documents.Backfill.{backfill_document_pii}
use pare.Store.Views.{update_company_profile, log_user_action}

-- One constructor for each modelled operation of the store that writes, with its arguments.
pub data Command : Type 0 where
  to_post_verification : (new_id : Text) (p : Posting) → Command
  to_lock_period : (company : Text) (through : ℕ) (reason : Text) → Command
  to_unlock_period : (company : Text) (reason : Text) → Command
  to_create_counterparty :
      (new_id : Text) (nonces : ℕ → Text) (company : Text) (cp : Counterparty) → Command
  to_update_counterparty :
      (nonces : ℕ → Text) (company : Text) (id : Text) (cp : Counterparty) → Command
  to_erase_counterparty : (nonce : Text) (company : Text) (id : Text) → Command
  to_create_invoice :
      (new_id : Text) (company : Text) (counterparty_id : Text) (inv : Invoice) → Command
  to_finalize_invoice : (new_id : Text) (company : Text) (id : Text) (date : ℕ) (due : ℕ) → Command
  to_delete_draft_invoice : (company : Text) (id : Text) → Command
  to_record_payment :
      (new_id : Text) (company : Text) (id : Text) (date : ℕ) (account : Text) (payment : Amount)
      → Command
  to_record_payment_by_number :
      (new_id : Text) (company : Text) (number : Text) (date : ℕ) (account : Text)
      (payment : Amount)
      → Command
  to_credit_invoice :
      (credit_id : Text) (new_id : Text) (company : Text) (id : Text) (today : ℕ) → Command
  to_create_supplier_invoice :
      (new_id : Text) (company : Text) (counterparty_id : Text) (supplier_number : Text) (date : ℕ)
      (due : ℕ) (cost_account : Text) (net : Amount) (code : PurchaseCode) (description : Text)
      → Command
  to_finalize_supplier_invoice : (new_id : Text) (company : Text) (id : Text) → Command
  to_record_supplier_payment :
      (new_id : Text) (company : Text) (id : Text) (date : ℕ) (account : Text) (amount : Amount)
      → Command
  to_import_bank_statement :
      (company : Text) (bank_account : Text) (entries : List (Text × Text × Entry)) → Command
  to_book_bank_txn_to_invoice :
      (new_id : Text) (company : Text) (id : Text) (invoice_id : Text) → Command
  to_book_bank_txn_to_account :
      (new_id : Text) (company : Text) (id : Text) (account : Text) → Command
  to_ignore_bank_txn : (company : Text) (id : Text) → Command
  to_undo_verification : (new_id : Text) (company : Text) (ver_id : Text) (today : ℕ) → Command
  to_import_sie : (ids : ℕ → Text) (company : Text) (exp : Export) (today : ℕ) → Command
  to_ensure_fiscal_year :
      (new_id : Text) (company : Text) (year : ℕ) (start : ℕ) (end : ℕ) → Command
  to_close_fiscal_year : (new_id : Text) (company : Text) (fy_id : Text) → Command
  to_save_document :
      (new_id : Text) (nonces : ℕ → Text) (now : ℕ) (company : Text) (filename : Text) (mime : Text)
      (content : Text) (note : Text)
      → Command
  to_attach_document_to_supplier : (company : Text) (id : Text) (supplier : Text) → Command
  to_delete_document : (company : Text) (id : Text) → Command
  to_update_company_profile : (company : Text) (profile : Profile) → Command
  to_log_user_action :
      (company : Text) (action : Text) (target_type : Text) (target_id : Text) (detail : Text)
      → Command
  to_backfill_document_pii : (draws : Text → ℕ → Text) → Command

-- A command, who gives it, and how the connection answers while it runs.
pub record Request : Type 0 where
  pub actor : Option Actor
  pub pool : Pool
  pub command : Command

-- The error that is answered, if one is, and the database after it.
abbrev pub answered : {A : Type 0} → Outcome A × Db → Option StoreError × Db
answered (failed e, db) = (some e, db)
answered (done a, db) = (none, db)

-- A command is carried out.
unfoldable pub execute : Env → Option Actor → Pool → Command → Db → Option StoreError × Db
unfolding public_post_verification lock_period unlock_period create_counterparty update_counterparty
    erase_counterparty create_invoice finalize_invoice delete_draft_invoice record_payment
    record_payment_by_number credit_invoice create_supplier_invoice finalize_supplier_invoice
    record_supplier_payment import_bank_statement book_bank_txn_to_invoice book_bank_txn_to_account
    ignore_bank_txn undo_verification import_sie ensure_fiscal_year close_fiscal_year save_document
    attach_document_to_supplier delete_document update_company_profile log_user_action
    backfill_document_pii
execute env actor pool (to_post_verification new_id p) db =
    answered (public_post_verification env.mac actor pool new_id p db)
execute env actor pool (to_lock_period company through reason) db =
    answered (lock_period env.mac env.format_date actor pool company through reason db)
execute env actor pool (to_unlock_period company reason) db =
    answered (unlock_period env.mac env.format_date actor pool company reason db)
execute env actor pool (to_create_counterparty new_id nonces company cp) db =
    answered (create_counterparty env actor new_id nonces company cp db)
execute env actor pool (to_update_counterparty nonces company id cp) db =
    answered (update_counterparty env actor nonces company id cp db)
execute env actor pool (to_erase_counterparty nonce company id) db =
    answered (erase_counterparty env actor nonce company id db)
execute env actor pool (to_create_invoice new_id company counterparty_id inv) db =
    answered (create_invoice env actor pool new_id company counterparty_id inv db)
execute env actor pool (to_finalize_invoice new_id company id date due) db =
    answered (finalize_invoice env actor pool new_id company id date due db)
execute env actor pool (to_delete_draft_invoice company id) db =
    answered (delete_draft_invoice env actor pool company id db)
execute env actor pool (to_record_payment new_id company id date account payment) db =
    answered (record_payment env actor pool new_id company id date account payment db)
execute env actor pool (to_record_payment_by_number new_id company number date account payment) db =
    answered (record_payment_by_number env actor pool new_id company number date account payment db)
execute env actor pool (to_credit_invoice credit_id new_id company id today) db =
    answered (credit_invoice env actor pool credit_id new_id company id today db)
execute env actor pool
      (to_create_supplier_invoice new_id company counterparty_id supplier_number date due
        cost_account net code description)
      db =
    answered (
      create_supplier_invoice env actor pool new_id company counterparty_id supplier_number date due
        cost_account net code description db)
execute env actor pool (to_finalize_supplier_invoice new_id company id) db =
    answered (finalize_supplier_invoice env actor pool new_id company id db)
execute env actor pool (to_record_supplier_payment new_id company id date account amount) db =
    answered (record_supplier_payment env actor pool new_id company id date account amount db)
execute env actor pool (to_import_bank_statement company bank_account entries) db =
    answered (import_bank_statement env actor pool company bank_account entries db)
execute env actor pool (to_book_bank_txn_to_invoice new_id company id invoice_id) db =
    answered (book_bank_txn_to_invoice env actor pool new_id company id invoice_id db)
execute env actor pool (to_book_bank_txn_to_account new_id company id account) db =
    answered (book_bank_txn_to_account env actor pool new_id company id account db)
execute env actor pool (to_ignore_bank_txn company id) db =
    answered (ignore_bank_txn env actor pool company id db)
execute env actor pool (to_undo_verification new_id company ver_id today) db =
    answered (undo_verification env actor pool new_id company ver_id today db)
execute env actor pool (to_import_sie ids company exp today) db =
    answered (import_sie env actor pool ids company exp today db)
execute env actor pool (to_ensure_fiscal_year new_id company year start end) db =
    answered (ensure_fiscal_year new_id company year start end db)
execute env actor pool (to_close_fiscal_year new_id company fy_id) db =
    answered (close_fiscal_year env actor pool new_id company fy_id db)
execute env actor pool (to_save_document new_id nonces now company filename mime content note) db =
    answered (save_document env actor new_id nonces now company filename mime content note db)
execute env actor pool (to_attach_document_to_supplier company id supplier) db =
    answered (attach_document_to_supplier env actor company id supplier db)
execute env actor pool (to_delete_document company id) db =
    answered (delete_document env actor company id db)
execute env actor pool (to_update_company_profile company profile) db =
    answered (update_company_profile env actor company profile db)
execute env actor pool (to_log_user_action company action target_type target_id detail) db =
    answered (log_user_action env actor company action target_type target_id detail db)
execute env actor pool (to_backfill_document_pii draws) db =
    let (m, db') = backfill_document_pii env draws db in (m.error, db')

-- The operations that write in a single transaction, or in a single statement.
abbrev pub is_transactional : Command → Bool
is_transactional (to_post_verification _ _) = true
is_transactional (to_lock_period _ _ _) = true
is_transactional (to_unlock_period _ _) = true
is_transactional (to_create_invoice _ _ _ _) = true
is_transactional (to_finalize_invoice _ _ _ _ _) = true
is_transactional (to_record_payment _ _ _ _ _ _) = true
is_transactional (to_record_payment_by_number _ _ _ _ _ _) = true
is_transactional (to_finalize_supplier_invoice _ _ _) = true
is_transactional (to_record_supplier_payment _ _ _ _ _ _) = true
is_transactional (to_book_bank_txn_to_account _ _ _ _) = true
is_transactional (to_ignore_bank_txn _ _) = true
is_transactional (to_undo_verification _ _ _ _) = true
is_transactional (to_import_sie _ _ _ _) = true
is_transactional (to_close_fiscal_year _ _ _) = true
is_transactional (to_log_user_action _ _ _ _ _) = true
is_transactional _ = false

-- The database after requests, one after the other.
unfoldable pub served : Env → List Request → Db → Db
unfolding execute
served env [] db = db
served env (r ∷ rs) db = served env rs (execute env r.actor r.pool r.command db).1
