-- ===== src/Store/Requests.antt =====
-- Concrete requests to internal/store, and the theorems about them.
mod Years
mod Shown
use pare.Common.{
  ℕ, ◌+◌, ◌==◌, ==_iff, length, Text, bytes, text_eq, false, none, some, List, [], ◌∷◌, ◌++◌, ◌≡◌,
  refl, arith, if◌then◌else◌,
}
use pare.Common.Int.{pos, negsuc, ◌*ℤ◌, ◌+ℤ◌, ◌-ℤ◌}
use pare.Common.Int64.{add, wrap}
use pare.Crypto.{Library}
use pare.Crypto.RoundTrip.{IsLawful}
use pare.Ledger.Verification.{Line, validate_lines}
use pare.Store.{
  InvoiceRow, no_profile, FiscalYearRow, Db, failed, done, unmatched, unknown_account, year_closed,
  find_row, get_company,
}
use pare.Store.Env.{Env}
use pare.Store.Audit.{has_prev, last_hash, verify_audit_chain}
use pare.Store.Payment.{debit_line, credit_line}
use pare.Store.Posting.{row_of, first_unknown, is_locked, next_verification_number}
use pare.Store.Period.Lock.{IsClosed}
use pare.Store.Command.{
  Request, execute, served, to_post_verification, to_lock_period, to_undo_verification,
}
use pare.Store.Journal.{Evolves}
use pare.Store.Journal.Appends.{Extends}
use pare.Store.Journal.Served.{served-Evolves, served-Extends, IsIntact, served-IsIntact}
use pare.Store.Act.{pure, lift, from, read, gets, transaction, guard, exec, exec_rows, post, log}
use pare.Store.Act.Steps.{up}
use pare.Store.Act.Failed.{execute_undone}
use pare.Store.Bank.{book_bank_txn_to_invoice}
use pare.Store.Bank.Claim.{IsBookedOnce, book_bank_txn_to_invoice_once}
use pare.Store.Suppliers.{supplier_payment_lines}
use pare.Store.Suppliers.Paid.{IsPaid, supplier_payment_lines-IsPaid}
use pare.Store.Undo.{undo_verification}
use pare.Store.Undo.Possible.{undo_verification_succeeds}
use pare.Store.Counterparty.{Counterparty, create_counterparty, get_counterparty}
use pare.Store.Counterparty.Identity.{get_counterparty-create_counterparty}
use pare.Store.Close.{close_fiscal_year}
use pare.Store.Import.{Export, SieImportResult, count_verifications, import_sie}
use pare.Store.Import.Count.{import_sie-count}
use pare.Store.Examples.{company, open_books, sale, with_sale, mark, invoice}

-- A stand-in for the library, which hides nothing.
abbrev pub plain : Library
plain = record {
  hmac = λ k s. s;
  is_aes_key = λ k. length k == 32;
  nonce_size = 12;
  seal_gcm = λ k n p. p;
  open_gcm = λ k n c. some c;
  encode_base64 = λ s. s;
  decode_base64 = λ s. some s;
}

abbrev pub env : Env
env = record {
  lib = plain;
  kek = bytes "0123456789abcdef0123456789abcdef";
  mac = mark;
  format_date = λ d. [];
  year_of = λ d. 2025;
  sha256_hex = λ s. s;
}

abbrev ask : List Request
ask =
    record { actor = none; pool = up; command = to_post_verification (bytes "v1") sale }
    ∷ record { actor = none; pool = up; command = to_lock_period company 120 (bytes "Q1") }
    ∷ record {
      actor = none;
      pool = up;
      command = to_undo_verification (bytes "v2") company (bytes "v1") 130;
    }
    ∷ []

served-Evolves_example : Evolves mark open_books (served env ask open_books)
served-Evolves_example = served-Evolves env ask open_books

served-Extends_example : Extends with_sale (served env ask with_sale)
served-Extends_example = served-Extends env ask with_sale

pub books_IsIntact : IsIntact env open_books
unfolding verify_audit_chain
books_IsIntact = ((λ c s. tt), tt, λ c. refl)

served-IsIntact_example : IsIntact env (served env ask open_books)
served-IsIntact_example = served-IsIntact env ask open_books books_IsIntact

abbrev no_accounts : Db
no_accounts = record open_books { accounts = [] }

sale_fails :
    (execute env none up (to_post_verification (bytes "v1") sale) no_accounts).0
    ≡ some (unknown_account (bytes "1930"))
unfolding execute wrap
sale_fails = refl

execute_undone_example :
    (execute env none up (to_post_verification (bytes "v1") sale) no_accounts).1 ≡ no_accounts
execute_undone_example =
    execute_undone env none up (to_post_verification (bytes "v1") sale) no_accounts
      (unknown_account (bytes "1930")) refl sale_fails

-- A company with a key.
abbrev pub keyed : Db
keyed = record open_books {
  companies =
      record {
        id = company;
        dek_wrapped = bytes "nonce-nonce-fedcba9876543210fedcba9876543210";
        locked_through = none;
        profile = no_profile;
      }
      ∷ [];
}

abbrev pub billed : InvoiceRow
billed = record invoice {
  lines =
      record {
        description = [];
        quantity_milli = pos 1000;
        unit_price_ore = pos 80000;
        vat_code = bytes "SE25";
      }
      ∷ [];
}

-- A payment of 600 kr on the account, which completes an invoice of 1000 kr.
abbrev pub received : Db
received = record keyed {
  accounts = keyed.accounts ++ record { company_id = company; number = bytes "1510" } ∷ [];
  counterparties =
      record {
        id = bytes "k1";
        company_id = company;
        kind = bytes "customer";
        name_enc = [];
        orgnr_enc = [];
        personnummer_enc = [];
        address_enc = [];
        iban_enc = [];
        email_enc = [];
        erased = false;
      }
      ∷ [];
  invoices = billed ∷ [];
  bank_transactions =
      record {
        id = bytes "t1";
        company_id = company;
        txn_date = 110;
        amount = pos 60000;
        text_enc = [];
        ref = bytes "2025-0001";
        bank_account = bytes "1930";
        fingerprint = bytes "f1";
        status = unmatched;
        verification_id = none;
        matched_invoice_id = none;
      }
      ∷ [];
}

payment_is_booked :
    (book_bank_txn_to_invoice env none up (bytes "v1") company (bytes "t1") (bytes "i1") received).0
    ≡ done tt
unfolding book_bank_txn_to_invoice wrap read guard from lift exec exec_rows transaction post log
    pure ◌-ℤ◌ ◌+ℤ◌ ◌*ℤ◌
payment_is_booked = refl

book_bank_txn_to_invoice_once_example :
    IsBookedOnce company
      (bytes "t1")
      received
      (book_bank_txn_to_invoice env none up (bytes "v1") company (bytes "t1") (bytes "i1") received)
unfolding text_eq
book_bank_txn_to_invoice_once_example =
    book_bank_txn_to_invoice_once env none up (bytes "v1") company (bytes "t1") (bytes "i1")
      received refl

-- 999,60 kr are owed, and 1000 kr are paid.
abbrev rounded_up : List Line
rounded_up =
    debit_line (bytes "2440") (pos 99960)
    ∷ credit_line (bytes "1930") (pos 100000)
    ∷ debit_line (bytes "3740") (pos 40)
    ∷ []

rounded_up_is_accepted :
    supplier_payment_lines (bytes "1930") (pos 99960) (pos 100000) ≡ done rounded_up
unfolding supplier_payment_lines wrap ◌+ℤ◌ ◌-ℤ◌
rounded_up_is_accepted = refl

supplier_payment_lines-IsPaid_example : IsPaid 99960 100000 rounded_up
unfolding text_eq
supplier_payment_lines-IsPaid_example =
    supplier_payment_lines-IsPaid (bytes "1930") 99960 100000 rounded_up (λ e. cc) refl
      (omega arith) (omega arith) (omega arith) (omega arith) rounded_up_is_accepted
