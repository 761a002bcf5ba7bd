-- ===== src/Store/Bank.antt =====
-- internal/store/store_bank.go: the transactions of the bank, and how they are booked.
pub mod Claim
use pare.Common.{
  ℕ, zero, suc, ◌-◌, ◌==◌, ltb, Text, bytes, text_eq, is_empty, not, ◌&&◌, Bool, true, false,
  Option, none, some, List, [], ◌∷◌, ◌++◌, length, if◌then◌else◌,
}
use pare.Common.Int.{pos}
use pare.Common.Int64.{neg}
use pare.Common.Decimal.{decimal, fmt_d}
use pare.Bank.{Entry}
use pare.Ledger.Money.{Amount, is_pos, amount_string}
use pare.Ledger.Verification.{Line}
use pare.Store.{
  BankTxnRow, Db, BankStatus, unmatched, booking, booked, ignored, is_unmatched, is_booking,
  is_bookable, find_row, any_row, update_rows, StoreError, Outcome, failed, done, Pool, no_rows,
  nil_uuid, pg_uuid, foreign_company, txn_not_open,
}
use pare.Store.Env.{Env}
use pare.Store.Audit.{Actor}
use pare.Store.Posting.{Posting}
use pare.Store.Payment.{debit_line, credit_line}
use pare.Store.Counterparty.{company_dek, enc}
use pare.Store.Invoices.Payments.{record_payment}
use pare.Store.Act.{
  Act, pure, lift, from, read, gets, transaction, guard, exec, exec_rows, post, log, each,
  ignore_error, or_cleanup, ◌>>=◌, ◌>>◌,
}

abbrev pub has_txn_id : Text → BankTxnRow → Bool
has_txn_id id r = text_eq r.id id

-- `WHERE id = $1 AND company_id = $2`, and a condition on the status.
abbrev pub is_txn_row : (BankStatus → Bool) → Text → Text → BankTxnRow → Bool
is_txn_row p company id r = text_eq r.id id && text_eq r.company_id company && p r.status

abbrev pub count_of : Text → List BankTxnRow → ℕ
count_of company [] = 0
count_of company (r ∷ rs) =
    if text_eq r.company_id company then suc (count_of company rs) else count_of company rs

-- `UPDATE bank_transactions ... WHERE`, which must find a row.
abbrev pub update_txn :
    (BankStatus → Bool) → Text → Text → (BankTxnRow → BankTxnRow) → Act (Unit {0})
update_txn p company id f =
    exec_rows (λ db. any_row (is_txn_row p company id) db.bank_transactions) txn_not_open
      (λ db. record db {
        bank_transactions = update_rows (is_txn_row p company id) f db.bank_transactions;
      })

-- ClaimBankTxn, UnclaimBankTxn, MarkBankTxnBooked and MarkBankTxnIgnored
abbrev pub claim : Text → Text → Act (Unit {0})
claim company id = update_txn is_unmatched company id (λ r. record r { status = booking })

abbrev pub unclaim : Text → Text → Act (Unit {0})
unclaim company id = update_txn is_booking company id (λ r. record r { status = unmatched })

abbrev pub mark_booked : Text → Text → Text → Text → Act (Unit {0})
mark_booked company id verification_id invoice_id = update_txn is_bookable company id (λ r.
    record r {
      status = booked;
      verification_id = pg_uuid verification_id;
      matched_invoice_id = pg_uuid invoice_id;
    })

-- InsertBankTxn, ON CONFLICT (company_id, fingerprint) DO NOTHING
abbrev insert_txn : BankTxnRow → List BankTxnRow → List BankTxnRow
insert_txn t rs =
    if any_row (λ r. text_eq r.company_id t.company_id && text_eq r.fingerprint t.fingerprint) rs
    then rs
    else rs ++ t ∷ []

-- The lines of BookBankTxnToAccount.
unfoldable pub booking_lines : Text → Text → Amount → List Line
unfolding neg
booking_lines bank_account account amount =
    if is_pos amount
    then debit_line bank_account amount ∷ credit_line account amount ∷ []
    else debit_line account (neg amount) ∷ credit_line bank_account (neg amount) ∷ []

module _ (env : Env) (actor : Option Actor) (pool : Pool) where
  -- `fmt.Sprintf("%s|%d|%s|%s", ...)`, hashed.
  unfoldable pub entry_fingerprint : Entry → Text
  unfolding fmt_d
  entry_fingerprint e =
      env.sha256_hex
        (env.format_date e.date ++ b'|' ∷ (fmt_d e.amount_ore ++ b'|' ∷ (e.text ++ b'|' ∷ e.ref)))

  -- The body of the loop of ImportBankStatement; an entry comes with the id of its row and the
  -- random bytes of its encryption.
  unfoldable pub import_entry : Text → Text → Text → Text × Text × Entry → Act (Unit {0})
  unfolding enc entry_fingerprint ◌>>=◌
  import_entry company bank_account dek (new_id, nonce, e) = if e.date == 0 then pure tt else do
    text_enc ← lift (enc env dek nonce e.text)
    exec (λ db. record db {
      bank_transactions =
          insert_txn
            (record {
              id = new_id;
              company_id = company;
              txn_date = e.date;
              amount = e.amount_ore;
              text_enc = text_enc;
              ref = e.ref;
              bank_account = bank_account;
              fingerprint = entry_fingerprint e;
              status = unmatched;
              verification_id = none;
              matched_invoice_id = none;
            })
            db.bank_transactions;
    })

  -- Store.ImportBankStatement
  unfoldable pub import_bank_statement : Text → Text → List (Text × Text × Entry) → Act ℕ
  unfolding company_dek import_entry each ignore_error decimal ◌>>=◌
  import_bank_statement company bank_account entries = do
    dek ← from (company_dek env company)
    before ← gets (λ db. count_of company db.bank_transactions)
    each (import_entry company (if is_empty bank_account then bytes "1930" else bank_account) dek)
        entries
    after ← gets (λ db. count_of company db.bank_transactions)
    let imported = after - before
    if ltb 0 imported
        then ignore_error (
            log env.mac actor company (bytes "import_bank_statement") (bytes "bank") company
              (decimal imported ++ bytes " nya transaktioner"))
        else pure tt
    pure imported

  -- Store.BookBankTxnToInvoice; the verifikat of the payment gets `new_id`.
  unfoldable pub book_bank_txn_to_invoice : Text → Text → Text → Text → Act (Unit {0})
  unfolding text_eq record_payment or_cleanup pg_uuid ◌>>=◌
  book_bank_txn_to_invoice new_id company id invoice_id = do
    txn ← read (λ db. find_row (has_txn_id id) db.bank_transactions) no_rows
    guard (text_eq txn.company_id company) foreign_company
    guard (is_unmatched txn.status && is_pos txn.amount) txn_not_open
    claim company id
    ver_id ←
        or_cleanup
          (record_payment env actor pool new_id company invoice_id txn.txn_date txn.bank_account
            txn.amount)
          (unclaim company id)
    mark_booked company id ver_id invoice_id

  -- Store.BookBankTxnToAccount; the verifikat gets `new_id`.
  unfoldable pub book_bank_txn_to_account : Text → Text → Text → Text → Act (Unit {0})
  unfolding text_eq booking_lines pg_uuid ◌>>=◌
  book_bank_txn_to_account new_id company id account = do
    txn ← read (λ db. find_row (has_txn_id id) db.bank_transactions) no_rows
    guard (text_eq txn.company_id company) foreign_company
    guard (is_unmatched txn.status) txn_not_open
    transaction pool (do
      post new_id (record {
        company_id = company;
        series = bytes "BK";
        date = txn.txn_date;
        description =
            if is_empty txn.ref
            then bytes "Banktransaktion"
            else bytes "Banktransaktion" ++ b' ' ∷ txn.ref;
        lines = booking_lines txn.bank_account account txn.amount;
        reversal_of = nil_uuid;
      })
      mark_booked company id new_id nil_uuid
      log env.mac actor company (bytes "book_bank_account") (bytes "verification") new_id
          (account ++ b' ' ∷ amount_string txn.amount))

  -- Store.IgnoreBankTxn
  unfoldable pub ignore_bank_txn : Text → Text → Act (Unit {0})
  unfolding text_eq
  ignore_bank_txn company id =
      update_txn is_unmatched company id (λ r. record r { status = ignored })
