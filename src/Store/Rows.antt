-- ===== src/Store/Rows.antt =====
-- The rows of the tables that internal/store reads and writes (internal/db/migrations).
--
-- The tables are lists in the order of insertion. A uuid is its text, and `nil_uuid` is uuid.Nil. A
-- date that may be NULL is an Option. A status is a constructor, since the tables allow no other text.
use pare.Common.{
  ℕ, Bool, true, false, ◌||◌, Text, bytes, Option, none, some, List, [], ◌∷◌, if◌then◌else◌,
}
use pare.Common.Int.{ℤ}
use pare.Ledger.Money.{Amount}
use pare.Ledger.Verification.{Line}
use pare.Invoice.{Line as InvoiceLine}

abbrev pub nil_uuid : Text
nil_uuid = bytes "00000000-0000-0000-0000-000000000000"

-- companies: what is printed on an invoice, and the columns that bookings read.
pub record Profile : Type 0 where
  pub name : Text
  pub orgnr : Text
  pub momsregnr : Text
  pub address : Text
  pub postal_code : Text
  pub city : Text
  pub bankgiro : Text
  pub iban : Text
  pub fskatt : Bool

abbrev pub no_profile : Profile
no_profile = record {
  name = [];
  orgnr = [];
  momsregnr = [];
  address = [];
  postal_code = [];
  city = [];
  bankgiro = [];
  iban = [];
  fskatt = false;
}

pub record Company : Type 0 where
  pub id : Text
  pub dek_wrapped : Text
  pub locked_through : Option ℕ
  pub profile : Profile

-- accounts: the columns that bookings read.
pub record AccountRow : Type 0 where
  pub company_id : Text
  pub number : Text

-- verifications, each with its rows of verification_lines.
pub record VerificationRow : Type 0 where
  pub id : Text
  pub company_id : Text
  pub series : Text
  pub number : ℕ
  pub date : ℕ
  pub description : Text
  pub reversal_of : Option Text
  pub lines : List Line

-- audit_log
pub record AuditRow : Type 0 where
  pub company_id : Text
  pub actor : Text
  pub actor_detail : Text
  pub action : Text
  pub target_type : Text
  pub target_id : Text
  pub detail : Text
  pub prev_hash : Text
  pub entry_hash : Text

-- The statuses that the tables allow; a supplier invoice has the first three.
pub data Status : Type 0 where
  draft finalized paid cancelled credited : Status

pub data BankStatus : Type 0 where
  unmatched booking booked ignored : BankStatus

-- counterparties
pub record CounterpartyRow : Type 0 where
  pub id : Text
  pub company_id : Text
  pub kind : Text
  pub name_enc : Text
  pub orgnr_enc : Text
  pub personnummer_enc : Text
  pub address_enc : Text
  pub iban_enc : Text
  pub email_enc : Text
  pub erased : Bool

-- invoices, each with its rows of invoice_lines.
pub record InvoiceRow : Type 0 where
  pub id : Text
  pub company_id : Text
  pub counterparty_id : Text
  pub number : Text
  pub status : Status
  pub invoice_date : Option ℕ
  pub due_date : Option ℕ
  pub currency : Text
  pub rate_ppm : ℤ
  pub amount_paid : Amount
  pub verification_id : Option Text
  pub payment_verification_id : Option Text
  pub paid_at : Option ℕ
  pub credits_invoice_id : Option Text
  pub lines : List InvoiceLine

-- invoice_number_seq
pub record NumberSeq : Type 0 where
  pub company_id : Text
  pub year : ℕ
  pub next_no : ℕ

-- supplier_invoices
pub record SupplierInvoiceRow : Type 0 where
  pub id : Text
  pub company_id : Text
  pub counterparty_id : Text
  pub supplier_number : Text
  pub invoice_date : Option ℕ
  pub due_date : Option ℕ
  pub cost_account : Text
  pub net : Amount
  pub vat_code : Text
  pub description : Text
  pub status : Status
  pub verification_id : Option Text
  pub payment_verification_id : Option Text
  pub paid_at : Option ℕ

-- bank_transactions
pub record BankTxnRow : Type 0 where
  pub id : Text
  pub company_id : Text
  pub txn_date : ℕ
  pub amount : Amount
  pub text_enc : Text
  pub ref : Text
  pub bank_account : Text
  pub fingerprint : Text
  pub status : BankStatus
  pub verification_id : Option Text
  pub matched_invoice_id : Option Text

-- fiscal_years
pub record FiscalYearRow : Type 0 where
  pub id : Text
  pub company_id : Text
  pub label : Text
  pub starts_on : ℕ
  pub ends_on : ℕ
  pub closed : Bool

-- shield_tokens
pub record ShieldTokenRow : Type 0 where
  pub session_id : Text
  pub token : Text
  pub kind : Text
  pub ciphertext : Text
  pub created_at : ℕ

-- documents; `filename` and `note` are the columns of before their encryption.
pub record DocumentRow : Type 0 where
  pub id : Text
  pub company_id : Text
  pub mime : Text
  pub byte_size : ℕ
  pub content_enc : Text
  pub sha256 : Text
  pub filename : Text
  pub note : Text
  pub filename_enc : Text
  pub note_enc : Text
  pub supplier_invoice_id : Option Text
  pub verification_id : Option Text
  pub created_at : ℕ

pub record Db : Type 0 where
  pub companies : List Company
  pub accounts : List AccountRow
  pub verifications : List VerificationRow
  pub audit_log : List AuditRow
  pub counterparties : List CounterpartyRow
  pub invoices : List InvoiceRow
  pub number_seq : List NumberSeq
  pub supplier_invoices : List SupplierInvoiceRow
  pub bank_transactions : List BankTxnRow
  pub fiscal_years : List FiscalYearRow
  pub shield_tokens : List ShieldTokenRow
  pub documents : List DocumentRow

-- Queries by a condition: the first row, whether there is a row, and an UPDATE.
module _ {ℓ} {A : Type ℓ} where
  abbrev pub find_row : (A → Bool) → List A → Option A
  find_row p [] = none
  find_row p (r ∷ rs) = if p r then some r else find_row p rs

  abbrev pub any_row : (A → Bool) → List A → Bool
  any_row p [] = false
  any_row p (r ∷ rs) = p r || any_row p rs

  abbrev pub update_rows : (A → Bool) → (A → A) → List A → List A
  update_rows p f [] = []
  update_rows p f (r ∷ rs) = (if p r then f r else r) ∷ update_rows p f rs

  -- A DELETE.
  abbrev pub without : (A → Bool) → List A → List A
  without p [] = []
  without p (r ∷ rs) = if p r then without p rs else r ∷ without p rs

abbrev pub is_draft : Status → Bool
is_draft draft = true
is_draft _ = false

abbrev pub is_finalized : Status → Bool
is_finalized finalized = true
is_finalized _ = false

-- status IN ('finalized', 'paid')
abbrev pub is_creditable : Status → Bool
is_creditable finalized = true
is_creditable paid = true
is_creditable _ = false

abbrev pub is_unmatched : BankStatus → Bool
is_unmatched unmatched = true
is_unmatched _ = false

abbrev pub is_booking : BankStatus → Bool
is_booking booking = true
is_booking _ = false

-- status IN ('unmatched', 'booking')
abbrev pub is_bookable : BankStatus → Bool
is_bookable unmatched = true
is_bookable booking = true
is_bookable _ = false
