-- ===== src/Store/Journal/Served.antt =====
-- Any sequence of commands (Store.Command) to internal/store keeps the journal.
use pare.Common.{Text, Option, none, List, [], ◌∷◌, ◌≡◌}
use pare.Store.{Db, Pool, Outcome, failed, done}
use pare.Store.Env.{Env}
use pare.Store.Audit.{Actor, verify_audit_chain}
use pare.Store.Posting.Numbers.{IsNumbered}
use pare.Store.Command.{
  Command, Request, answered, execute, served, to_post_verification, to_lock_period,
  to_unlock_period, to_create_counterparty, to_update_counterparty, to_erase_counterparty,
  to_create_invoice, to_finalize_invoice, to_delete_draft_invoice, to_record_payment,
  to_record_payment_by_number, to_credit_invoice, to_create_supplier_invoice,
  to_finalize_supplier_invoice, to_record_supplier_payment, to_import_bank_statement,
  to_book_bank_txn_to_invoice, to_book_bank_txn_to_account, to_ignore_bank_txn,
  to_undo_verification, to_import_sie, to_ensure_fiscal_year, to_close_fiscal_year,
  to_save_document, to_attach_document_to_supplier, to_delete_document, to_update_company_profile,
  to_log_user_action, to_backfill_document_pii,
}
use pare.Store.Posting.{public_post_verification}
use pare.Store.Period.{lock_period, unlock_period}
use pare.Store.Counterparty.{create_counterparty, update_counterparty, erase_counterparty}
use pare.Store.Invoices.{create_invoice, finalize_invoice, delete_draft_invoice}
use pare.Store.Invoices.Payments.{record_payment, record_payment_by_number}
use pare.Store.Invoices.Credit.{credit_invoice}
use pare.Store.Suppliers.{
  create_supplier_invoice, finalize_supplier_invoice, record_supplier_payment,
}
use pare.Store.Bank.{
  import_bank_statement, book_bank_txn_to_invoice, book_bank_txn_to_account, ignore_bank_txn,
}
use pare.Store.Undo.{undo_verification}
use pare.Store.Import.{import_sie}
use pare.Store.Close.{ensure_fiscal_year, close_fiscal_year}
use pare.Store.Documents.{save_document, attach_document_to_supplier, delete_document}
use pare.Store.Views.{update_company_profile, log_user_action}
use pare.Store.Journal.{Evolves, still, Evolves-trans}
use pare.Store.Journal.Direct.{
  Evolves-public_post_verification, Evolves-lock_period, Evolves-unlock_period,
}
use pare.Store.Journal.Operations.{
  Evolves-create_counterparty, Evolves-update_counterparty, Evolves-erase_counterparty,
  Evolves-create_invoice, Evolves-finalize_invoice, Evolves-delete_draft_invoice,
  Evolves-record_payment, Evolves-record_payment_by_number, Evolves-credit_invoice,
  Evolves-create_supplier_invoice, Evolves-finalize_supplier_invoice,
  Evolves-record_supplier_payment, Evolves-import_bank_statement, Evolves-book_bank_txn_to_invoice,
  Evolves-book_bank_txn_to_account, Evolves-ignore_bank_txn, Evolves-undo_verification,
  Evolves-import_sie, Evolves-ensure_fiscal_year, Evolves-close_fiscal_year, Evolves-save_document,
  Evolves-attach_document_to_supplier, Evolves-delete_document, Evolves-update_company_profile,
  Evolves-log_user_action, Evolves-backfill_document_pii,
}
use pare.Store.Journal.Appends.{
  Extends, IsAccepted, Evolves-Extends, Evolves-IsNumbered, Evolves-chain, Evolves-IsAccepted,
}

answered_kept :
    {A : Type 0} {mac : Text → Text} {db : Db} (r : Outcome A × Db)
    → Evolves mac db r.1
    → Evolves mac db (answered r).1
answered_kept (failed e, db') h = h
answered_kept (done a, db') h = h

execute-Evolves :
    (env : Env) (actor : Option Actor) (pool : Pool) (c : Command) (db : Db)
    → Evolves env.mac db (execute env actor pool c db).1
unfolding execute
execute-Evolves env actor pool (to_post_verification new_id p) db =
    answered_kept (public_post_verification env.mac actor pool new_id p db)
      ((Evolves-public_post_verification env.mac actor pool new_id p).at db)
execute-Evolves env actor pool (to_lock_period company through reason) db =
    answered_kept (lock_period env.mac env.format_date actor pool company through reason db)
      ((Evolves-lock_period env.mac actor pool env.format_date company through reason).at db)
execute-Evolves env actor pool (to_unlock_period company reason) db =
    answered_kept (unlock_period env.mac env.format_date actor pool company reason db)
      ((Evolves-unlock_period env.mac actor pool env.format_date company reason).at db)
execute-Evolves env actor pool (to_create_counterparty new_id nonces company cp) db =
    answered_kept (create_counterparty env actor new_id nonces company cp db)
      ((Evolves-create_counterparty env actor pool new_id nonces company cp).at db)
execute-Evolves env actor pool (to_update_counterparty nonces company id cp) db =
    answered_kept (update_counterparty env actor nonces company id cp db)
      ((Evolves-update_counterparty env actor pool nonces company id cp).at db)
execute-Evolves env actor pool (to_erase_counterparty nonce company id) db =
    answered_kept (erase_counterparty env actor nonce company id db)
      ((Evolves-erase_counterparty env actor pool nonce company id).at db)
execute-Evolves env actor pool (to_create_invoice new_id company counterparty_id inv) db =
    answered_kept (create_invoice env actor pool new_id company counterparty_id inv db)
      ((Evolves-create_invoice env actor pool new_id company counterparty_id inv).at db)
execute-Evolves env actor pool (to_finalize_invoice new_id company id date due) db =
    answered_kept (finalize_invoice env actor pool new_id company id date due db)
      ((Evolves-finalize_invoice env actor pool new_id company id date due).at db)
execute-Evolves env actor pool (to_delete_draft_invoice company id) db =
    answered_kept (delete_draft_invoice env actor pool company id db)
      ((Evolves-delete_draft_invoice env actor pool company id).at db)
execute-Evolves env actor pool (to_record_payment new_id company id date account payment) db =
    answered_kept (record_payment env actor pool new_id company id date account payment db)
      ((Evolves-record_payment env actor pool new_id company id date account payment).at db)
execute-Evolves env actor pool
      (to_record_payment_by_number new_id company number date account payment) db =
    answered_kept
      (record_payment_by_number env actor pool new_id company number date account payment db)
      ((Evolves-record_payment_by_number env actor pool new_id company number date account
          payment).at
        db)
execute-Evolves env actor pool (to_credit_invoice credit_id new_id company id today) db =
    answered_kept (credit_invoice env actor pool credit_id new_id company id today db)
      ((Evolves-credit_invoice env actor pool credit_id new_id company id today).at db)
execute-Evolves env actor pool
      (to_create_supplier_invoice new_id company counterparty_id supplier_number date due
        cost_account net code description)
      db =
    answered_kept
      (create_supplier_invoice env actor pool new_id company counterparty_id supplier_number date
        due cost_account net code description db)
      ((Evolves-create_supplier_invoice env actor pool new_id company counterparty_id
          supplier_number date due cost_account net code description).at
        db)
execute-Evolves env actor pool (to_finalize_supplier_invoice new_id company id) db =
    answered_kept (finalize_supplier_invoice env actor pool new_id company id db)
      ((Evolves-finalize_supplier_invoice env actor pool new_id company id).at db)
execute-Evolves env actor pool (to_record_supplier_payment new_id company id date account amount)
      db =
    answered_kept (record_supplier_payment env actor pool new_id company id date account amount db)
      ((Evolves-record_supplier_payment env actor pool new_id company id date account amount).at db)
execute-Evolves env actor pool (to_import_bank_statement company bank_account entries) db =
    answered_kept (import_bank_statement env actor pool company bank_account entries db)
      ((Evolves-import_bank_statement env actor pool company bank_account entries).at db)
execute-Evolves env actor pool (to_book_bank_txn_to_invoice new_id company id invoice_id) db =
    answered_kept (book_bank_txn_to_invoice env actor pool new_id company id invoice_id db)
      ((Evolves-book_bank_txn_to_invoice env actor pool new_id company id invoice_id).at db)
execute-Evolves env actor pool (to_book_bank_txn_to_account new_id company id account) db =
    answered_kept (book_bank_txn_to_account env actor pool new_id company id account db)
      ((Evolves-book_bank_txn_to_account env actor pool new_id company id account).at db)
execute-Evolves env actor pool (to_ignore_bank_txn company id) db =
    answered_kept (ignore_bank_txn env actor pool company id db)
      ((Evolves-ignore_bank_txn env actor pool company id).at db)
execute-Evolves env actor pool (to_undo_verification new_id company ver_id today) db =
    answered_kept (undo_verification env actor pool new_id company ver_id today db)
      ((Evolves-undo_verification env actor pool new_id company ver_id today).at db)
execute-Evolves env actor pool (to_import_sie ids company exp today) db =
    answered_kept (import_sie env actor pool ids company exp today db)
      ((Evolves-import_sie env actor pool ids company exp today).at db)
execute-Evolves env actor pool (to_ensure_fiscal_year new_id company year start end) db =
    answered_kept (ensure_fiscal_year new_id company year start end db)
      ((Evolves-ensure_fiscal_year env actor pool new_id company year start end).at db)
execute-Evolves env actor pool (to_close_fiscal_year new_id company fy_id) db =
    answered_kept (close_fiscal_year env actor pool new_id company fy_id db)
      ((Evolves-close_fiscal_year env actor pool new_id company fy_id).at db)
execute-Evolves env actor pool
      (to_save_document new_id nonces now company filename mime content note) db =
    answered_kept (save_document env actor new_id nonces now company filename mime content note db)
      ((Evolves-save_document env actor pool new_id nonces now company filename mime content
          note).at
        db)
execute-Evolves env actor pool (to_attach_document_to_supplier company id supplier) db =
    answered_kept (attach_document_to_supplier env actor company id supplier db)
      ((Evolves-attach_document_to_supplier env actor pool company id supplier).at db)
execute-Evolves env actor pool (to_delete_document company id) db =
    answered_kept (delete_document env actor company id db)
      ((Evolves-delete_document env actor pool company id).at db)
execute-Evolves env actor pool (to_update_company_profile company profile) db =
    answered_kept (update_company_profile env actor company profile db)
      ((Evolves-update_company_profile env actor pool company profile).at db)
execute-Evolves env actor pool (to_log_user_action company action target_type target_id detail) db =
    answered_kept (log_user_action env actor company action target_type target_id detail db)
      ((Evolves-log_user_action env actor pool company action target_type target_id detail).at db)
execute-Evolves env actor pool (to_backfill_document_pii draws) db =
    Evolves-backfill_document_pii env actor pool draws db

-- The journal is refined: whatever commands are served, in whatever order and with whatever errors,
-- the tables of verifikat, accounts and the log go from before to after by steps that post a verifikat
-- by postVerification, log an entry by logAudit, add an account, or leave all three alone.
pub served-Evolves :
    (env : Env) (rs : List Request) (db : Db) → Evolves env.mac db (served env rs db)
unfolding served
served-Evolves env [] db = still
served-Evolves env (r ∷ rs) db =
    Evolves-trans (execute-Evolves env r.actor r.pool r.command db)
      (served-Evolves env rs (execute env r.actor r.pool r.command db).1)

-- The journal is append-only: whatever commands are served, in whatever order and with whatever
-- errors, the verifikat of before are still there, unaltered and in their order, and new ones come
-- after them.
pub served-Extends : (env : Env) (rs : List Request) (db : Db) → Extends db (served env rs db)
served-Extends env rs db = Evolves-Extends (served-Evolves env rs db)

-- The numbers of each series are 1, 2, 3 and so on; each verifikat has lines that Validate accepts, on
-- accounts that its company has; and the chain of each company is unbroken.
abbrev pub IsIntact : Env → Db → Type 0
IsIntact env db =
    IsNumbered db
    × IsAccepted db
    × ((company : Text) → verify_audit_chain env.mac company db ≡ none)

-- If before any commands are served the series are numbered without gaps, each verifikat has lines
-- that Validate accepts on accounts that its company has, and VerifyAuditChain finds no break for any
-- company, then the same holds after them, whatever they ask and whether they fail or not.
pub served-IsIntact :
    (env : Env) (rs : List Request) (db : Db) → IsIntact env db → IsIntact env (served env rs db)
served-IsIntact env rs db (numbered, accepted, chained) =
    let e = served-Evolves env rs db in
    (
      Evolves-IsNumbered e numbered,
      Evolves-IsAccepted e accepted,
      λ company. Evolves-chain company e (chained company),
    )
