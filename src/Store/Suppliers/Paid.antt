-- ===== src/Store/Suppliers/Paid.antt =====
-- What the payment of a supplier invoice (internal/store/store_supplier.go) does to the debt.
use pare.Common.{
  ℕ, ◌+◌, ◌-◌, ◌<◌, ◌^◌, ◌≡◌, ◌≢◌, ◌∙◌, suc, sym, ap, Text, bytes, text_eq, false, leb, List, [],
  Bool-cases, inl, inr, arith,
}
use pare.Common.Int.{pos}
use pare.Ledger.Verification.{Line}
use pare.Ledger.Verification.Postable.{IsPostable}
use pare.Store.{done}
use pare.Store.Payment.{abs_amount}
use pare.Store.Payment.Cleared.{debited_on, credited_on, sub_above, sub_below, neg_below}
use pare.Store.Suppliers.{supplier_payment_lines}

-- The lines can be posted, and clear the debt of `gross`; `amount` is less than a krona from it.
abbrev pub IsPaid : ℕ → ℕ → List Line → Type 0
IsPaid gross amount ls =
    IsPostable ls
    × (debited_on (bytes "2440") ls ≡ gross)
    × (credited_on (bytes "2440") ls ≡ 0)
    × (amount < gross + 100)
    × (gross < amount + 100)

cleared_above :
    (account : Text) (amount r : ℕ) (ls : List Line)
    → account ≢ []
    → text_eq account (bytes "2440") ≡ false
    → 0 < amount
    → amount + r < 2 ^ 62
    → supplier_payment_lines account (pos (amount + r)) (pos amount) ≡ done ls
    → IsPaid (amount + r) amount ls
unfolding supplier_payment_lines text_eq abs_amount
cleared_above account amount r ls a n h b e =
    let sum = sub_above amount r (omega arith) in ground arith

cleared_below :
    (account : Text) (gross m : ℕ) (ls : List Line)
    → account ≢ []
    → text_eq account (bytes "2440") ≡ false
    → 0 < gross
    → gross + suc m < 2 ^ 62
    → supplier_payment_lines account (pos gross) (pos (gross + suc m)) ≡ done ls
    → IsPaid gross (gross + suc m) ls
unfolding supplier_payment_lines text_eq abs_amount
cleared_below account gross m ls a n h b e =
    let sum = sub_below gross m (omega arith) in
    let back = neg_below m (omega arith) in ground arith

-- Whenever RecordSupplierPayment accepts a payment from a named account other than 2440, for positive
-- amounts below 2 ^ 62, the lines can be posted, exactly what is owed is debited to 2440 and nothing
-- credited to it, and the payment is less than a krona from what is owed.
pub supplier_payment_lines-IsPaid :
    (account : Text) (gross amount : ℕ) (ls : List Line)
    → account ≢ []
    → text_eq account (bytes "2440") ≡ false
    → 0 < gross
    → 0 < amount
    → gross < 2 ^ 62
    → amount < 2 ^ 62
    → supplier_payment_lines account (pos gross) (pos amount) ≡ done ls
    → IsPaid gross amount ls
supplier_payment_lines-IsPaid account gross amount ls a n g h b k e =
    elim (Bool-cases (leb amount gross)) [
      | inl le ↦
          let eq : amount + (gross - amount) ≡ gross = ground arith in
          rw (sym eq) (
            cleared_above account amount (gross - amount) ls a n h (omega arith)
              (ap (λ x. supplier_payment_lines account (pos x) (pos amount)) eq ∙ e))
      | inr gt ↦
          let eq : gross + suc (amount - gross - 1) ≡ amount = ground arith in
          rw (sym eq) (
            cleared_below account gross (amount - gross - 1) ls a n g (ground arith)
              (ap (λ x. supplier_payment_lines account (pos gross) (pos x)) eq ∙ e))
    ]
