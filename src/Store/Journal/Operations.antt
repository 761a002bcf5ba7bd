-- ===== src/Store/Journal/Operations.antt =====
-- Each operation of internal/store keeps the journal.
use pare.Common.{refl, ℕ, Text, Option, List}
use pare.Ledger.Money.{Amount}
use pare.Moms.Purchase.{PurchaseCode}
use pare.Invoice.{Invoice}
use pare.Bank.{Entry}
use pare.Store.{Db, Profile, Pool}
use pare.Store.Env.{Env}
use pare.Store.Audit.{Actor}
use pare.Store.Counterparty.{
  create_counterparty, update_counterparty, erase_counterparty, Counterparty,
}
use pare.Store.Invoices.{create_invoice, finalize_invoice, delete_draft_invoice}
use pare.Store.Invoices.Payments.{record_payment, record_payment_by_number}
use pare.Store.Invoices.Credit.{credit_invoice}
use pare.Store.Suppliers.{
  create_supplier_invoice, finalize_supplier_invoice, record_supplier_payment,
}
use pare.Store.Bank.{
  import_bank_statement, book_bank_txn_to_invoice, book_bank_txn_to_account, ignore_bank_txn,
}
use pare.Store.Undo.{undo_verification}
use pare.Store.Import.{import_sie, Export}
use pare.Store.Close.{ensure_fiscal_year, close_fiscal_year}
use pare.Store.Import.{post_opening}
use pare.Store.Documents.{save_document, attach_document_to_supplier, delete_document}
use pare.Store.Documents.Backfill.{backfill_document_pii}
use pare.Store.Views.{update_company_profile, log_user_action}
use pare.Store.Act.Keeps.{Keeps}
use pare.Store.Journal.{Evolves, quiet, still, further}
use pare.Store.Journal.Rules.{journal_rules}
use pare.Store.Journal.Direct.{Evolves-upsert_account}

module _ (env : Env) (actor : Option Actor) (pool : Pool) where
  Evolves-post_opening :
      (new_id company : Text) (exp : Export) (today : ℕ)
      → Keeps (Evolves env.mac) (post_opening env actor pool new_id company exp today)
  unfolding post_opening
  Evolves-post_opening new_id company exp today = search journal_rules depth 10

  pub Evolves-create_counterparty :
      (new_id : Text) (nonces : ℕ → Text) (company : Text) (cp : Counterparty)
      → Keeps (Evolves env.mac) (create_counterparty env actor new_id nonces company cp)
  unfolding create_counterparty
  Evolves-create_counterparty new_id nonces company cp = search journal_rules depth 40

  pub Evolves-update_counterparty :
      (nonces : ℕ → Text) (company : Text) (id : Text) (cp : Counterparty)
      → Keeps (Evolves env.mac) (update_counterparty env actor nonces company id cp)
  unfolding update_counterparty
  Evolves-update_counterparty nonces company id cp = search journal_rules depth 40

  pub Evolves-erase_counterparty :
      (nonce : Text) (company : Text) (id : Text)
      → Keeps (Evolves env.mac) (erase_counterparty env actor nonce company id)
  unfolding erase_counterparty
  Evolves-erase_counterparty nonce company id = search journal_rules depth 40

  pub Evolves-create_invoice :
      (new_id : Text) (company : Text) (counterparty_id : Text) (inv : Invoice)
      → Keeps (Evolves env.mac) (create_invoice env actor pool new_id company counterparty_id inv)
  unfolding create_invoice
  Evolves-create_invoice new_id company counterparty_id inv = search journal_rules depth 40

  pub Evolves-finalize_invoice :
      (new_id : Text) (company : Text) (id : Text) (date : ℕ) (due : ℕ)
      → Keeps (Evolves env.mac) (finalize_invoice env actor pool new_id company id date due)
  unfolding finalize_invoice
  Evolves-finalize_invoice new_id company id date due = search journal_rules depth 40

  pub Evolves-delete_draft_invoice :
      (company : Text) (id : Text)
      → Keeps (Evolves env.mac) (delete_draft_invoice env actor pool company id)
  unfolding delete_draft_invoice
  Evolves-delete_draft_invoice company id = search journal_rules depth 40

  pub Evolves-record_payment :
      (new_id : Text) (company : Text) (id : Text) (date : ℕ) (account : Text) (payment : Amount)
      → Keeps
          (Evolves env.mac)
          (record_payment env actor pool new_id company id date account payment)
  unfolding record_payment
  Evolves-record_payment new_id company id date account payment = search journal_rules depth 40

  pub Evolves-record_payment_by_number :
      (new_id : Text) (company : Text) (number : Text) (date : ℕ) (account : Text)
      (payment : Amount)
      → Keeps
          (Evolves env.mac)
          (record_payment_by_number env actor pool new_id company number date account payment)
  unfolding record_payment_by_number
  Evolves-record_payment_by_number new_id company number date account payment =
      search journal_rules depth 40

  pub Evolves-credit_invoice :
      (credit_id : Text) (new_id : Text) (company : Text) (id : Text) (today : ℕ)
      → Keeps (Evolves env.mac) (credit_invoice env actor pool credit_id new_id company id today)
  unfolding credit_invoice
  Evolves-credit_invoice credit_id new_id company id today = search journal_rules depth 40

  pub Evolves-create_supplier_invoice :
      (new_id : Text) (company : Text) (counterparty_id : Text) (supplier_number : Text) (date : ℕ)
      (due : ℕ) (cost_account : Text) (net : Amount) (code : PurchaseCode) (description : Text)
      → Keeps (Evolves env.mac) (
          create_supplier_invoice env actor pool new_id company counterparty_id supplier_number date
            due cost_account net code description)
  unfolding create_supplier_invoice
  Evolves-create_supplier_invoice new_id company counterparty_id supplier_number date due
        cost_account net code description =
      search journal_rules depth 40

  pub Evolves-finalize_supplier_invoice :
      (new_id : Text) (company : Text) (id : Text)
      → Keeps (Evolves env.mac) (finalize_supplier_invoice env actor pool new_id company id)
  unfolding finalize_supplier_invoice
  Evolves-finalize_supplier_invoice new_id company id = search journal_rules depth 40

  pub Evolves-record_supplier_payment :
      (new_id : Text) (company : Text) (id : Text) (date : ℕ) (account : Text) (amount : Amount)
      → Keeps
          (Evolves env.mac)
          (record_supplier_payment env actor pool new_id company id date account amount)
  unfolding record_supplier_payment
  Evolves-record_supplier_payment new_id company id date account amount =
      search journal_rules depth 40

  pub Evolves-import_bank_statement :
      (company : Text) (bank_account : Text) (entries : List (Text × Text × Entry))
      → Keeps (Evolves env.mac) (import_bank_statement env actor pool company bank_account entries)
  unfolding import_bank_statement
  Evolves-import_bank_statement company bank_account entries = search journal_rules depth 40

  pub Evolves-book_bank_txn_to_invoice :
      (new_id : Text) (company : Text) (id : Text) (invoice_id : Text)
      → Keeps
          (Evolves env.mac)
          (book_bank_txn_to_invoice env actor pool new_id company id invoice_id)
  unfolding book_bank_txn_to_invoice
  Evolves-book_bank_txn_to_invoice new_id company id invoice_id = search journal_rules depth 40

  pub Evolves-book_bank_txn_to_account :
      (new_id : Text) (company : Text) (id : Text) (account : Text)
      → Keeps (Evolves env.mac) (book_bank_txn_to_account env actor pool new_id company id account)
  unfolding book_bank_txn_to_account
  Evolves-book_bank_txn_to_account new_id company id account = search journal_rules depth 40

  pub Evolves-ignore_bank_txn :
      (company : Text) (id : Text)
      → Keeps (Evolves env.mac) (ignore_bank_txn env actor pool company id)
  unfolding ignore_bank_txn
  Evolves-ignore_bank_txn company id = search journal_rules depth 40

  pub Evolves-undo_verification :
      (new_id : Text) (company : Text) (ver_id : Text) (today : ℕ)
      → Keeps (Evolves env.mac) (undo_verification env actor pool new_id company ver_id today)
  unfolding undo_verification
  Evolves-undo_verification new_id company ver_id today = search journal_rules depth 40

  pub Evolves-import_sie :
      (ids : ℕ → Text) (company : Text) (exp : Export) (today : ℕ)
      → Keeps (Evolves env.mac) (import_sie env actor pool ids company exp today)
  unfolding import_sie
  Evolves-import_sie ids company exp today =
      search (journal_rules, Evolves-upsert_account, Evolves-post_opening) depth 40

  pub Evolves-ensure_fiscal_year :
      (new_id : Text) (company : Text) (year : ℕ) (start : ℕ) (end : ℕ)
      → Keeps (Evolves env.mac) (ensure_fiscal_year new_id company year start end)
  unfolding ensure_fiscal_year
  Evolves-ensure_fiscal_year new_id company year start end = search journal_rules depth 40

  pub Evolves-close_fiscal_year :
      (new_id : Text) (company : Text) (fy_id : Text)
      → Keeps (Evolves env.mac) (close_fiscal_year env actor pool new_id company fy_id)
  unfolding close_fiscal_year
  Evolves-close_fiscal_year new_id company fy_id = search journal_rules depth 40

  pub Evolves-save_document :
      (new_id : Text) (nonces : ℕ → Text) (now : ℕ) (company : Text) (filename : Text) (mime : Text)
      (content : Text) (note : Text)
      → Keeps
          (Evolves env.mac)
          (save_document env actor new_id nonces now company filename mime content note)
  unfolding save_document
  Evolves-save_document new_id nonces now company filename mime content note =
      search journal_rules depth 40

  pub Evolves-attach_document_to_supplier :
      (company : Text) (id : Text) (supplier : Text)
      → Keeps (Evolves env.mac) (attach_document_to_supplier env actor company id supplier)
  unfolding attach_document_to_supplier
  Evolves-attach_document_to_supplier company id supplier = search journal_rules depth 40

  pub Evolves-delete_document :
      (company : Text) (id : Text) → Keeps (Evolves env.mac) (delete_document env actor company id)
  unfolding delete_document
  Evolves-delete_document company id = search journal_rules depth 40

  pub Evolves-update_company_profile :
      (company : Text) (profile : Profile)
      → Keeps (Evolves env.mac) (update_company_profile env actor company profile)
  unfolding update_company_profile
  Evolves-update_company_profile company profile = search journal_rules depth 40

  pub Evolves-log_user_action :
      (company : Text) (action : Text) (target_type : Text) (target_id : Text) (detail : Text)
      → Keeps
          (Evolves env.mac)
          (log_user_action env actor company action target_type target_id detail)
  unfolding log_user_action
  Evolves-log_user_action company action target_type target_id detail =
      search journal_rules depth 40

  -- A migration writes documents alone.
  pub Evolves-backfill_document_pii :
      (draws : Text → ℕ → Text) (db : Db)
      → Evolves env.mac db (backfill_document_pii env draws db).1
  unfolding backfill_document_pii
  Evolves-backfill_document_pii draws db = further still (quiet refl refl refl)
