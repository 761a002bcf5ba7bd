-- ===== src/Store/Act/Operations.antt =====
-- Which operations of internal/store leave the database as it was when they answer an error.
use pare.Common.{ℕ, Text, Option, ◌≡◌, refl}
use pare.Ledger.Money.{Amount}
use pare.Invoice.{Invoice}
use pare.Store.{Pool, in_tx, Db, StoreError, Outcome, failed, done}
use pare.Store.Act.{written, log}
use pare.Store.Env.{Env}
use pare.Store.Audit.{Actor, log_audit}
use pare.Store.Posting.{public_post_verification, Posting}
use pare.Store.Period.{lock_period, unlock_period}
use pare.Store.Invoices.{create_invoice, finalize_invoice}
use pare.Store.Invoices.Payments.{record_payment, record_payment_by_number}
use pare.Store.Suppliers.{finalize_supplier_invoice, record_supplier_payment}
use pare.Store.Views.{log_user_action}
use pare.Store.Bank.{book_bank_txn_to_account, ignore_bank_txn}
use pare.Store.Undo.{undo_verification}
use pare.Store.Import.{import_sie, Export}
use pare.Store.Close.{close_fiscal_year}
use pare.Store.Act.Undone.{IsUndone, undone_rules, undone_of}

-- A single statement.
written_undone :
    (db : Db) (o : Outcome Db) (e : StoreError)
    → (written db o).0 ≡ failed e
    → (written db o).1 ≡ db
written_undone db (failed x) e h = refl
written_undone db (done end) e h = absurd (cc)

module _ (env : Env) (actor : Option Actor) (pool : Pool) where
  pub IsUndone-public_post_verification :
      (new_id : Text) (p : Posting)
      → IsUndone (public_post_verification env.mac actor pool new_id p)
  unfolding public_post_verification in_tx
  IsUndone-public_post_verification new_id p = record {
    at = λ db e h. undone_of db _ pool.begin_error pool.commit_error e h;
  }

  pub IsUndone-lock_period :
      (company : Text) (through : ℕ) (reason : Text)
      → IsUndone (lock_period env.mac env.format_date actor pool company through reason)
  unfolding lock_period in_tx
  IsUndone-lock_period company through reason = record {
    at = λ db e h. undone_of db _ pool.begin_error pool.commit_error e h;
  }

  pub IsUndone-unlock_period :
      (company : Text) (reason : Text)
      → IsUndone (unlock_period env.mac env.format_date actor pool company reason)
  unfolding unlock_period in_tx
  IsUndone-unlock_period company reason = record {
    at = λ db e h. undone_of db _ pool.begin_error pool.commit_error e h;
  }

  pub IsUndone-create_invoice :
      (new_id : Text) (company : Text) (counterparty_id : Text) (inv : Invoice)
      → IsUndone (create_invoice env actor pool new_id company counterparty_id inv)
  unfolding create_invoice
  IsUndone-create_invoice new_id company counterparty_id inv = search undone_rules depth 40

  pub IsUndone-finalize_invoice :
      (new_id : Text) (company : Text) (id : Text) (date : ℕ) (due : ℕ)
      → IsUndone (finalize_invoice env actor pool new_id company id date due)
  unfolding finalize_invoice
  IsUndone-finalize_invoice new_id company id date due = search undone_rules depth 40

  pub IsUndone-record_payment :
      (new_id : Text) (company : Text) (id : Text) (date : ℕ) (account : Text) (payment : Amount)
      → IsUndone (record_payment env actor pool new_id company id date account payment)
  unfolding record_payment
  IsUndone-record_payment new_id company id date account payment = search undone_rules depth 40

  pub IsUndone-record_payment_by_number :
      (new_id : Text) (company : Text) (number : Text) (date : ℕ) (account : Text)
      (payment : Amount)
      → IsUndone
          (record_payment_by_number env actor pool new_id company number date account payment)
  unfolding record_payment_by_number
  IsUndone-record_payment_by_number new_id company number date account payment =
      search undone_rules depth 40

  pub IsUndone-finalize_supplier_invoice :
      (new_id : Text) (company : Text) (id : Text)
      → IsUndone (finalize_supplier_invoice env actor pool new_id company id)
  unfolding finalize_supplier_invoice
  IsUndone-finalize_supplier_invoice new_id company id = search undone_rules depth 40

  pub IsUndone-record_supplier_payment :
      (new_id : Text) (company : Text) (id : Text) (date : ℕ) (account : Text) (amount : Amount)
      → IsUndone (record_supplier_payment env actor pool new_id company id date account amount)
  unfolding record_supplier_payment
  IsUndone-record_supplier_payment new_id company id date account amount =
      search undone_rules depth 40

  pub IsUndone-book_bank_txn_to_account :
      (new_id : Text) (company : Text) (id : Text) (account : Text)
      → IsUndone (book_bank_txn_to_account env actor pool new_id company id account)
  unfolding book_bank_txn_to_account
  IsUndone-book_bank_txn_to_account new_id company id account = search undone_rules depth 40

  pub IsUndone-ignore_bank_txn :
      (company : Text) (id : Text) → IsUndone (ignore_bank_txn env actor pool company id)
  unfolding ignore_bank_txn
  IsUndone-ignore_bank_txn company id = search undone_rules depth 40

  pub IsUndone-undo_verification :
      (new_id : Text) (company : Text) (ver_id : Text) (today : ℕ)
      → IsUndone (undo_verification env actor pool new_id company ver_id today)
  unfolding undo_verification
  IsUndone-undo_verification new_id company ver_id today = search undone_rules depth 40

  pub IsUndone-import_sie :
      (ids : ℕ → Text) (company : Text) (exp : Export) (today : ℕ)
      → IsUndone (import_sie env actor pool ids company exp today)
  unfolding import_sie
  IsUndone-import_sie ids company exp today = search undone_rules depth 40

  pub IsUndone-close_fiscal_year :
      (new_id : Text) (company : Text) (fy_id : Text)
      → IsUndone (close_fiscal_year env actor pool new_id company fy_id)
  unfolding close_fiscal_year
  IsUndone-close_fiscal_year new_id company fy_id = search undone_rules depth 40

  pub IsUndone-log_user_action :
      (company action target_type target_id detail : Text)
      → IsUndone (log_user_action env actor company action target_type target_id detail)
  unfolding log_user_action log
  IsUndone-log_user_action company action target_type target_id detail = record {
    at = λ db e h.
        written_undone db (log_audit env.mac actor company action target_type target_id detail db) e
          h;
  }
