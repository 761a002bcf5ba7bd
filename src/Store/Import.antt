-- ===== src/Store/Import.antt =====
-- internal/store/store_sie_import.go: ImportSIE, which fills an empty ledger from a parsed file.
pub mod Count
use pare.Common.{
  ℕ, zero, suc, ◌+◌, ◌==◌, ltb, Text, bytes, text_eq, is_empty, not, ◌&&◌, ◌||◌, Bool, true, false,
  Option, none, some, List, [], ◌∷◌, ◌++◌, length, if◌then◌else◌,
}
use pare.Common.Int.{ℤ, pos, leb_ℤ}
use pare.Common.Int64.{neg}
use pare.Common.Decimal.{decimal}
use pare.Ledger.Money.{Amount, is_pos, is_neg}
use pare.Ledger.Verification.{Line}
use pare.Sie.{Voucher, Line as SieLine}
use pare.Store.{
  AccountRow, VerificationRow, Db, StoreError, Outcome, Pool, any_row, nil_uuid, ledger_not_empty,
}
use pare.Store.Env.{Env}
use pare.Store.Audit.{Actor}
use pare.Store.Posting.{Posting}
use pare.Store.Payment.{debit_line, credit_line}
use pare.Store.Act.{Act, pure, gets, transaction, guard, exec, post, log, each, ◌>>=◌, ◌>>◌}

-- The parts of sie.Export that the import reads.
pub record Export : Type 0 where
  pub year_start : ℕ
  pub accounts : List Text
  pub opening_balances : List (Text × ℤ)
  pub vouchers : List Voucher

pub record SieImportResult : Type 0 where
  pub accounts_seeded : ℕ
  pub opening_posted : Bool
  pub vouchers : ℕ

abbrev pub is_account : Text → Text → AccountRow → Bool
is_account company number r = text_eq r.company_id company && text_eq r.number number

-- UpsertAccount: the columns that an update sets are none that bookings read.
abbrev pub with_account : Text → Text → Db → Db
with_account company number db =
    if any_row (is_account company number) db.accounts then db else record db {
      accounts = db.accounts ++ record { company_id = company; number = number } ∷ [];
    }

abbrev pub upsert_account : Text → Text → Act (Unit {0})
upsert_account company number = exec (with_account company number)

-- The lines of the opening balance.
unfoldable pub opening_lines : List (Text × ℤ) → List Line
unfolding neg
opening_lines [] = []
opening_lines ((account, amount) ∷ bs) =
    let rest = opening_lines bs in
    if is_pos amount
    then debit_line account amount ∷ rest
    else if is_neg amount
    then credit_line account (neg amount) ∷ rest
    else rest

-- The lines of a voucher.
unfoldable pub voucher_lines : List SieLine → List Line
unfolding neg
voucher_lines [] = []
voucher_lines (l ∷ ls) =
    (if leb_ℤ (pos 0) l.amount
      then debit_line l.account l.amount
      else credit_line l.account (neg l.amount))
    ∷ voucher_lines ls

abbrev pub count_verifications : Text → List VerificationRow → ℕ
count_verifications company [] = 0
count_verifications company (r ∷ rs) =
    if text_eq r.company_id company
    then 1 + count_verifications company rs
    else count_verifications company rs

module _ (env : Env) (actor : Option Actor) (pool : Pool) where
  -- The verifikat of the opening balance, if it has lines.
  unfoldable pub post_opening : Text → Text → Export → ℕ → Act (Unit {0})
  unfolding opening_lines
  post_opening new_id company exp today =
      let lines = opening_lines exp.opening_balances in
      if not (ltb 0 (length lines))
      then pure tt
      else post new_id (record {
        company_id = company;
        series = bytes "IB";
        date = if exp.year_start == 0 then today else exp.year_start;
        description = bytes "Ingående balans (import)";
        lines = lines;
        reversal_of = nil_uuid;
      })

  -- The body of the loop over the vouchers, each with the id that its row gets.
  unfoldable pub post_voucher : Text → Text × Voucher → Act (Unit {0})
  unfolding voucher_lines
  post_voucher company (new_id, v) = post new_id (record {
    company_id = company;
    series = if is_empty v.series then bytes "A" else v.series;
    date = v.date;
    description = if is_empty v.text then bytes "Import" else v.text;
    lines = voucher_lines v.lines;
    reversal_of = nil_uuid;
  })

  abbrev pub with_ids : (ℕ → Text) → ℕ → List Voucher → List (Text × Voucher)
  with_ids ids n [] = []
  with_ids ids n (v ∷ vs) = (ids n, v) ∷ with_ids ids (suc n) vs

  -- Store.ImportSIE; its verifikat get the ids in their order.
  unfoldable pub import_sie : (ℕ → Text) → Text → Export → ℕ → Act SieImportResult
  unfolding text_eq post_opening post_voucher each decimal ◌>>=◌
  import_sie ids company exp today = transaction pool (do
    empty ← gets (λ db. count_verifications company db.verifications == 0)
    guard empty ledger_not_empty
    each (upsert_account company) exp.accounts
    post_opening (ids 0) company exp today
    each (post_voucher company) (with_ids ids 1 exp.vouchers)
    log env.mac actor company (bytes "import_sie") (bytes "company") company (
        decimal (length exp.vouchers)
        ++ (bytes " verifikat, " ++ (decimal (length exp.accounts) ++ bytes " konton")))
    pure (record {
      accounts_seeded = length exp.accounts;
      opening_posted = ltb 0 (length (opening_lines exp.opening_balances));
      vouchers = length exp.vouchers;
    }))
