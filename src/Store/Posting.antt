-- ===== src/Store/Posting.antt =====
-- internal/store/store.go: PostVerification and the core that every booking shares.
pub mod Done
pub mod Numbers
pub mod Atomic
pub mod Sound
use pare.Common.{
  ℕ, suc, ◌^◌, ◌≡◌, Text, bytes, text_eq, ◌||◌, Bool, true, false, Option, none, some, List, [],
  ◌∷◌, ◌++◌, if◌then◌else◌,
}
use pare.Common.{ltb, leb}
use pare.Common.Int.{ℤ, pos}
use pare.Common.Int64.{add}
use pare.Ledger.Money.{Amount, amount_string}
use pare.Ledger.Verification.{Line, Verification, validate}
use pare.Store.{
  AccountRow, VerificationRow, Db, StoreError, Outcome, failed, done, and_then, Pool, in_tx,
  pg_uuid, get_company, invalid, no_rows, period_closed, unknown_account, out_of_range,
}
use pare.Store.Audit.{Actor, log_audit}

-- The arguments of a posting.
pub record Posting : Type 0 where
  pub company_id : Text
  pub series : Text
  pub date : ℕ
  pub description : Text
  pub lines : List Line
  pub reversal_of : Text

-- `known[number]` over Queries.ListAccounts
unfoldable pub is_known : Text → Text → List AccountRow → Bool
unfolding text_eq
is_known company number [] = false
is_known company number (a ∷ rows) =
    if text_eq a.company_id company
    then text_eq a.number number || is_known company number rows
    else is_known company number rows

-- The first account that is not known.
unfoldable pub first_unknown : Text → List AccountRow → List Line → Option Text
unfolding is_known
first_unknown company accounts [] = none
first_unknown company accounts (l ∷ ls) =
    if is_known company l.account accounts
    then first_unknown company accounts ls
    else some l.account

-- COALESCE(MAX(number), 0)
unfoldable pub max_number : Text → Text → List VerificationRow → ℕ
unfolding text_eq
max_number company series [] = 0
max_number company series (r ∷ rs) =
    let rest = max_number company series rs in
    if text_eq r.company_id company
    then (if text_eq r.series series then (if ltb rest r.number then r.number else rest) else rest)
    else rest

-- Queries.NextVerificationNumber, whose sum is an INTEGER of 32 bits.
unfoldable pub next_verification_number : Text → Text → List VerificationRow → Option ℕ
unfolding max_number
next_verification_number company series rs =
    let n = max_number company series rs in if leb (2 ^ 31) (suc n) then none else some (suc n)

-- `co.LockedThrough.Valid && !date.After(co.LockedThrough.Time)`
unfoldable pub is_locked : Option ℕ → ℕ → Bool
is_locked none date = false
is_locked (some through) date = leb date through

-- The row that InsertVerification and InsertVerificationLine write, with the id that it is given.
abbrev pub row_of : Text → ℕ → Posting → VerificationRow
row_of new_id number p = record {
  id = new_id;
  company_id = p.company_id;
  series = p.series;
  number = number;
  date = p.date;
  description = p.description;
  reversal_of = pg_uuid p.reversal_of;
  lines = p.lines;
}

-- The end of postVerification, after the period is found open.
unfoldable pub insert_posting : Text → Posting → Db → Outcome Db
unfolding first_unknown next_verification_number
insert_posting new_id p db = elim (first_unknown p.company_id db.accounts p.lines) [
  | some account ↦ failed (unknown_account account)
  | none ↦ elim (next_verification_number p.company_id p.series db.verifications) [
    | none ↦ failed out_of_range
    | some number ↦
        done (record db { verifications = db.verifications ++ row_of new_id number p ∷ [] })
  ]
]

abbrev pub verification_of : Posting → Verification
verification_of p = record {
  series = p.series;
  number = pos 0;
  date = p.date;
  description = p.description;
  lines = p.lines;
  reversal_of = [];
}

-- Store.postVerification; the id of the row is `new_id`.
unfoldable pub post_verification : Text → Posting → Db → Outcome Db
unfolding validate get_company is_locked insert_posting
post_verification new_id p db = elim (validate (verification_of p)) [
  | some e ↦ failed (invalid e)
  | none ↦ elim (get_company p.company_id db.companies) [
    | none ↦ failed no_rows
    | some co ↦
        if is_locked co.locked_through p.date
        then failed period_closed
        else insert_posting new_id p db
  ]
]

-- The loop that adds the debits up.
unfoldable pub debit_total : Amount → List Line → Amount
unfolding add
debit_total total [] = total
debit_total total (l ∷ ls) = debit_total (add total l.debit) ls

-- Store.PostVerification; the id that it returns beside an error is not kept.
unfoldable pub public_post_verification :
    (Text → Text) → Option Actor → Pool → Text → Posting → Db → Outcome Text × Db
unfolding post_verification log_audit in_tx debit_total amount_string
public_post_verification mac actor pool new_id p db = in_tx pool db (λ tx.
    and_then (post_verification new_id p tx) (λ posted.
      and_then
        (log_audit mac actor p.company_id (bytes "post_verification") (bytes "verification") new_id
          (p.series ++ b' ' ∷ amount_string (debit_total (pos 0) p.lines)) posted)
        (λ logged. done (new_id, logged))))
