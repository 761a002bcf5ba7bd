-- ===== src/Store/Payment.antt =====
-- internal/store/store_payment.go: RecordPayment, from its checks to the lines that it posts.
pub mod Cleared
use pare.Common.{
  Text, bytes, text_eq, not, ◌||◌, Bool, true, false, List, [], ◌∷◌, ◌++◌, if◌then◌else◌,
}
use pare.Common.Int.{pos, eqb_ℤ, ltb_ℤ, leb_ℤ}
use pare.Common.Int64.{add, sub, neg}
use pare.Ledger.Money.{Amount, is_pos, is_neg}
use pare.Ledger.Verification.{Line}
use pare.Store.{
  InvoiceRow, is_finalized, and_then, Outcome, failed, done, foreign_company, not_finalized,
  payment_mismatch,
}

abbrev pub ores_rounding_threshold : Amount
ores_rounding_threshold = pos 100

-- absAmount
unfoldable pub abs_amount : Amount → Amount
unfolding neg
abs_amount a = if is_neg a then neg a else a

abbrev pub debit_line : Text → Amount → Line
debit_line a x = record { account = a; debit = x; credit = pos 0; vat_code = [] }

abbrev pub credit_line : Text → Amount → Line
credit_line a x = record { account = a; debit = pos 0; credit = x; vat_code = [] }

-- The lines to post, and fullyPaid.
abbrev pub Settlement : Type 0
Settlement = List Line × Bool

-- A foreign currency: one payment, and the difference to what was booked.
unfoldable pub foreign_settlement : Text → Amount → Amount → Amount → Outcome Settlement
unfolding sub neg
foreign_settlement account already_paid gross payment =
    let diff = sub payment gross in
    let lines = debit_line account payment ∷ credit_line (bytes "1510") gross ∷ [] in
    if not (eqb_ℤ already_paid (pos 0))
    then failed payment_mismatch
    else if is_pos diff
    then done (lines ++ credit_line (bytes "3960") diff ∷ [], true)
    else if is_neg diff
    then done (lines ++ debit_line (bytes "7960") (neg diff) ∷ [], true)
    else done (lines, true)

-- SEK: instalments, and differences below a krona.
unfoldable pub sek_settlement : Text → Amount → Amount → Amount → Outcome Settlement
unfolding add sub neg abs_amount
sek_settlement account already_paid gross payment =
    let residual = sub gross (add already_paid payment) in
    let lines = debit_line account payment ∷ credit_line (bytes "1510") payment ∷ [] in
    if eqb_ℤ residual (pos 0)
    then done (lines, true)
    else if ltb_ℤ (abs_amount residual) ores_rounding_threshold
    then (if is_pos residual
        then done (
          lines ++ credit_line (bytes "1510") residual ∷ debit_line (bytes "3740") residual ∷ [],
          true,
        )
        else done (
          lines
              ++ debit_line (bytes "1510") (neg residual)
                ∷ credit_line (bytes "3740") (neg residual)
                ∷ [],
          true,
        ))
    else if is_neg residual
    then failed payment_mismatch
    else done (lines, false)

-- The checks of RecordPayment before the invoice is resolved.
unfoldable pub payment_allowed : Text → InvoiceRow → Amount → Outcome (Unit {0})
unfolding text_eq
payment_allowed company inv payment =
    if not (text_eq inv.company_id company)
    then failed foreign_company
    else if not (is_finalized inv.status)
    then failed not_finalized
    else if leb_ℤ payment (pos 0)
    then failed payment_mismatch
    else done tt

-- RecordPayment up to its transaction; `gross` is the receivable that InvoiceForRender gives.
unfoldable pub settlement : Text → InvoiceRow → Text → Amount → Amount → Outcome Settlement
unfolding text_eq payment_allowed foreign_settlement sek_settlement
settlement company inv account gross payment = and_then (payment_allowed company inv payment) (λ _.
    if not (text_eq inv.currency (bytes "SEK"))
    then foreign_settlement account inv.amount_paid gross payment
    else sek_settlement account inv.amount_paid gross payment)
