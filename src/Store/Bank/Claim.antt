-- ===== src/Store/Bank/Claim.antt =====
-- A transaction of the bank (internal/store/store_bank.go) is booked to an invoice once, or not at all.
use pare.Common.{Text, true, false, Option, List, [], ◌∷◌, ◌≡◌, refl, ap, ◌⊎◌, inl, inr, arith, ℕ}
use pare.Ledger.Money.{Amount}
use pare.Store.{
  BankTxnRow, Db, unmatched, booking, booked, is_unmatched, is_booking, is_bookable, any_row,
  update_rows, StoreError, Outcome, failed, done, Pool, pg_uuid,
}
use pare.Store.Env.{Env}
use pare.Store.Audit.{Actor}
use pare.Store.Invoices.Payments.{record_payment}
use pare.Store.Bank.{is_txn_row, unclaim, mark_booked, book_bank_txn_to_invoice}
use pare.Store.Act.{exec_rows, continue, cleaned, or_cleanup, ◌>>=◌}
use pare.Store.Act.Operations.{IsUndone-record_payment}
use pare.Store.Act.Steps.{after_read, after_guard, after_exec_rows}
use pare.Store.Act.Keeps.{Keeps}
use pare.Store.Act.Same.{Same, same_rules}

module _ (env : Env) (actor : Option Actor) (pool : Pool) where
  record_payment_txns :
      (new_id company id : Text) (date : ℕ) (account : Text) (payment : Amount)
      → Keeps
          (Same (λ db. db.bank_transactions))
          (record_payment env actor pool new_id company id date account payment)
  unfolding record_payment
  record_payment_txns new_id company id date account payment = search same_rules depth 40

-- A claim that is taken back leaves the table as it was.
unclaim_claim :
    (company id : Text) (rs : List BankTxnRow)
    → any_row (is_txn_row is_booking company id) rs ≡ false
    → update_rows
        (is_txn_row is_booking company id)
        (λ r. record r { status = unmatched })
        (update_rows (is_txn_row is_unmatched company id) (λ r. record r { status = booking }) rs)
      ≡ rs
unclaim_claim company id [] h = refl
unclaim_claim company id (r ∷ rs) h = ground (arith, unclaim_claim company id rs)

any_booking_claim :
    (company id : Text) (rs : List BankTxnRow)
    → any_row (is_txn_row is_unmatched company id) rs ≡ true
    → any_row
        (is_txn_row is_booking company id)
        (update_rows (is_txn_row is_unmatched company id) (λ r. record r { status = booking }) rs)
      ≡ true
any_booking_claim company id [] h = absurd (cc)
any_booking_claim company id (r ∷ rs) h = ground (arith, any_booking_claim company id rs)

booking-bookable :
    (company id : Text) (rs : List BankTxnRow)
    → any_row (is_txn_row is_booking company id) rs ≡ true
    → any_row (is_txn_row is_bookable company id) rs ≡ true
booking-bookable company id [] h = absurd (cc)
booking-bookable company id (r ∷ rs) h = ground (arith, booking-bookable company id rs)

no_bookable :
    (company id v i : Text) (rs : List BankTxnRow)
    → any_row (is_txn_row is_bookable company id) (
        update_rows
          (is_txn_row is_bookable company id)
          (λ r. record r {
            status = booked;
            verification_id = pg_uuid v;
            matched_invoice_id = pg_uuid i;
          })
          rs)
      ≡ false
no_bookable company id v i [] = refl
no_bookable company id v i (r ∷ rs) = ground (arith, no_bookable company id v i rs)

-- What the booking of a transaction to an invoice comes to.
abbrev pub IsBookedOnce : Text → Text → Db → Outcome (Unit {0}) × Db → Type 0
IsBookedOnce company id db (answer, db') =
    ((e : StoreError) × (answer ≡ failed e) × (db' ≡ db))
    ⊎ ((answer ≡ done tt)
        × (any_row (is_txn_row is_bookable company id) db'.bank_transactions ≡ false))

-- Of the payment it is used that an error leaves the database alone, and that the transactions of the
-- bank are left alone in any case.
module _ (company id invoice_id : Text) (db : Db) where
  abbrev claimed : Db
  claimed = record db {
    bank_transactions =
        update_rows (is_txn_row is_unmatched company id) (λ r. record r { status = booking })
          db.bank_transactions;
  }

  settled :
      (r : Outcome Text × Db)
      → any_row (is_txn_row is_booking company id) db.bank_transactions ≡ false
      → any_row (is_txn_row is_unmatched company id) db.bank_transactions ≡ true
      → r.1.bank_transactions ≡ claimed.bank_transactions
      → ((e : StoreError) → r.0 ≡ failed e → r.1 ≡ claimed)
      → IsBookedOnce company id db (
          let (answer, db') = cleaned (unclaim company id) r in
          continue answer (λ v. mark_booked company id v invoice_id) db')
  unfolding exec_rows
  settled (done v, db') free found same undone =
      let b = any_booking_claim company id db.bank_transactions found in
      let bookable_ : any_row (is_txn_row is_bookable company id) db'.bank_transactions ≡ true =
        rw same (booking-bookable company id claimed.bank_transactions b) in
      rw bookable_ (inr (refl, no_bookable company id v invoice_id db'.bank_transactions))
  settled (failed e, db') free found same undone =
      rw (undone e refl, any_booking_claim company id db.bank_transactions found)
        (inl (
          e,
          refl,
          ap (λ rs. record db { bank_transactions = rs })
              (unclaim_claim company id db.bank_transactions free),
        ))

failed_once :
    (company id : Text) (db : Db) (e : StoreError) → IsBookedOnce company id db (failed e, db)
failed_once company id db e = inl (e, refl, refl)

module _ (env : Env) (actor : Option Actor) (pool : Pool) where
  -- Unless the transaction is being booked already, the booking of it to an invoice either answers an
  -- error and leaves the whole database as it was, so that it can be tried again, or it succeeds and
  -- the transaction is open no more.
  pub book_bank_txn_to_invoice_once :
      (new_id company id invoice_id : Text) (db : Db)
      → any_row (is_txn_row is_booking company id) db.bank_transactions ≡ false
      → IsBookedOnce company id db
          (book_bank_txn_to_invoice env actor pool new_id company id invoice_id db)
  unfolding book_bank_txn_to_invoice or_cleanup ◌>>=◌
  book_bank_txn_to_invoice_once new_id company id invoice_id db free =
      let P = IsBookedOnce company id db in
      let stop = failed_once company id db in
      after_read P db stop _ _ _ (λ txn _. after_guard P db stop _ _ _ (λ _.
        after_guard P db stop _ _ _ (λ _. after_exec_rows P db stop _ _ _ _ (λ found.
          settled company id invoice_id db
            (record_payment env actor pool new_id company invoice_id txn.txn_date txn.bank_account
              txn.amount (claimed company id invoice_id db))
            free found
            ((record_payment_txns env actor pool new_id company invoice_id txn.txn_date
                txn.bank_account txn.amount).at
              (claimed company id invoice_id db)).same
            ((IsUndone-record_payment env actor pool new_id company invoice_id txn.txn_date
                txn.bank_account txn.amount).at
              (claimed company id invoice_id db))))))
