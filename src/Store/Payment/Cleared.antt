-- ===== src/Store/Payment/Cleared.antt =====
-- What the lines of a payment (internal/store/store_payment.go) do to the receivable.
use pare.Common.{
  ℕ, ◌+◌, ◌≤◌, ◌<◌, ◌^◌, ◌≡◌, ◌-◌, ◌≢◌, ◌↔◌, refl, ap, sym, ◌⊎◌, inl, inr, leb, Bool-cases, ◌∙◌,
  suc, Text, bytes, text_eq, true, false, List, [], ◌∷◌, if◌then◌else◌, arith,
}
use pare.Common.Int.{◌-ℤ◌, negsuc, pos, pos_part}
use pare.Common.Int64.{wrap, wrap_of_IsInt64, sub, neg, add_fits}
use pare.Ledger.Money.{Amount}
use pare.Ledger.Verification.{Line}
use pare.Ledger.Verification.Postable.{IsPostable}
use pare.Store.{InvoiceRow, failed, done, payment_mismatch}
use pare.Store.Payment.{Settlement, abs_amount, foreign_settlement, sek_settlement, settlement}

-- What lines credit to an account, and debit.
abbrev pub credited_on : Text → List Line → ℕ
credited_on a [] = 0
credited_on a (l ∷ ls) =
    if text_eq l.account a then pos_part l.credit + credited_on a ls else credited_on a ls

abbrev pub debited_on : Text → List Line → ℕ
debited_on a [] = 0
debited_on a (l ∷ ls) =
    if text_eq l.account a then pos_part l.debit + debited_on a ls else debited_on a ls

-- A difference that is not negative, and one that is.
pub sub_above : (b r : ℕ) → b + r < 2 ^ 63 → sub (pos (b + r)) (pos b) ≡ pos r
unfolding sub ◌-ℤ◌
sub_above b r h = ap wrap (ground arith) ∙ wrap_of_IsInt64 (pos r) (omega arith)

pub sub_below : (a m : ℕ) → a + suc m < 2 ^ 63 → sub (pos a) (pos (a + suc m)) ≡ negsuc m
unfolding sub ◌-ℤ◌
sub_below a m h = ap wrap (ground arith) ∙ wrap_of_IsInt64 (negsuc m) (omega arith)

pub neg_below : (m : ℕ) → suc m < 2 ^ 63 → neg (negsuc m) ≡ pos (suc m)
unfolding neg ◌-ℤ◌
neg_below m h = ap wrap (ground arith) ∙ wrap_of_IsInt64 (pos (suc m)) (omega arith)

-- What a settlement does to a receivable of `gross` with `already` paid: when it says that the
-- invoice is fully paid, exactly the rest is credited to 1510 on balance; otherwise the payment is,
-- and a krona or more is left.
abbrev pub IsSettled : ℕ → ℕ → ℕ → Settlement → Type 0
IsSettled gross already payment s =
    IsPostable s.0
    × (s.1 ≡ true
        → already + credited_on (bytes "1510") s.0 ≡ gross + debited_on (bytes "1510") s.0)
    × (s.1 ≡ false
        → (credited_on (bytes "1510") s.0 ≡ payment)
          × (debited_on (bytes "1510") s.0 ≡ 0)
          × (already + payment + 100 ≤ gross))

sek_above :
    (account : Text) (already payment r : ℕ) (s : Settlement)
    → account ≢ []
    → text_eq account (bytes "1510") ≡ false
    → 0 < payment
    → already + payment + r < 2 ^ 62
    → sek_settlement account (pos already) (pos (already + payment + r)) (pos payment) ≡ done s
    → IsSettled (already + payment + r) already payment s
unfolding sek_settlement text_eq abs_amount
sek_above account already payment r s a n h b e =
    let eq = add_fits already (pos payment) refl (omega arith) in
    let sum = sub_above (already + payment) r (omega arith) in ground arith

sek_below :
    (account : Text) (already gross payment m : ℕ) (s : Settlement)
    → account ≢ []
    → text_eq account (bytes "1510") ≡ false
    → 0 < payment
    → already + payment ≡ gross + suc m
    → already + payment < 2 ^ 62
    → sek_settlement account (pos already) (pos gross) (pos payment) ≡ done s
    → IsSettled gross already payment s
unfolding sek_settlement text_eq abs_amount
sek_below account already gross payment m s a n h q b e =
    let eq = add_fits already (pos payment) refl (omega arith) in
    let sum = sub_below gross m (omega arith) in
    let back = neg_below m (omega arith) in ground arith

sek_settlement-IsSettled :
    (account : Text) (already gross payment : ℕ) (s : Settlement)
    → account ≢ []
    → text_eq account (bytes "1510") ≡ false
    → 0 < payment
    → gross < 2 ^ 62
    → already + payment < 2 ^ 62
    → sek_settlement account (pos already) (pos gross) (pos payment) ≡ done s
    → IsSettled gross already payment s
sek_settlement-IsSettled account already gross payment s a n h k b e =
    elim (Bool-cases (leb (already + payment) gross)) [
      | inl le ↦
          let r = gross - (already + payment) in
          let eq : already + payment + r ≡ gross = ground arith in
          rw (sym eq) (
            sek_above account already payment r s a n h (omega arith)
              (ap (λ g. sek_settlement account (pos already) (pos g) (pos payment)) eq ∙ e))
      | inr gt ↦
          sek_below account already gross payment (already + payment - gross - 1) s a n h
            (ground arith) b e
    ]

foreign_above :
    (account : Text) (already gross r : ℕ) (s : Settlement)
    → account ≢ []
    → text_eq account (bytes "1510") ≡ false
    → 0 < gross
    → gross + r < 2 ^ 62
    → foreign_settlement account (pos already) (pos gross) (pos (gross + r)) ≡ done s
    → IsSettled gross already (gross + r) s
unfolding foreign_settlement text_eq
foreign_above account already gross r s a n h b e =
    let diff = sub_above gross r (omega arith) in ground arith

foreign_below :
    (account : Text) (already payment m : ℕ) (s : Settlement)
    → account ≢ []
    → text_eq account (bytes "1510") ≡ false
    → 0 < payment
    → payment + suc m < 2 ^ 62
    → foreign_settlement account (pos already) (pos (payment + suc m)) (pos payment) ≡ done s
    → IsSettled (payment + suc m) already payment s
unfolding foreign_settlement text_eq
foreign_below account already payment m s a n h b e =
    let diff = sub_below payment m (omega arith) in
    let back = neg_below m (omega arith) in ground arith

foreign_settlement-IsSettled :
    (account : Text) (already gross payment : ℕ) (s : Settlement)
    → account ≢ []
    → text_eq account (bytes "1510") ≡ false
    → 0 < payment
    → 0 < gross
    → gross < 2 ^ 62
    → payment < 2 ^ 62
    → foreign_settlement account (pos already) (pos gross) (pos payment) ≡ done s
    → IsSettled gross already payment s
foreign_settlement-IsSettled account already gross payment s a n h g k b e =
    elim (Bool-cases (leb gross payment)) [
      | inl le ↦
          let r = payment - gross in
          let eq : gross + r ≡ payment = ground arith in
          rw (sym eq) (
            foreign_above account already gross r s a n g (omega arith)
              (ap (λ p. foreign_settlement account (pos already) (pos gross) (pos p)) eq ∙ e))
      | inr gt ↦
          let m = gross - payment - 1 in
          let eq : payment + suc m ≡ gross = ground arith in
          rw (sym eq) (
            foreign_below account already payment m s a n h (omega arith)
              (ap (λ p. foreign_settlement account (pos already) (pos p) (pos payment)) eq ∙ e))
    ]

settlement-cases :
    (company : Text) (inv : InvoiceRow) (account : Text) (gross : Amount) (payment : ℕ)
    (s : Settlement)
    → settlement company inv account gross (pos payment) ≡ done s
    → (0 < payment)
      × ((foreign_settlement account inv.amount_paid gross (pos payment) ≡ done s)
          ⊎ (sek_settlement account inv.amount_paid gross (pos payment) ≡ done s))
unfolding settlement
settlement-cases company inv account gross payment s e = ground arith

-- Whenever RecordPayment accepts a payment into a named account other than 1510, for amounts below
-- 2 ^ 62 and a positive receivable, the lines can be posted; when the invoice becomes fully paid,
-- exactly what was left of the receivable is credited to 1510 on balance; when it stays open, the
-- payment is, and a krona or more is left.
pub settlement-IsSettled :
    (company : Text) (inv : InvoiceRow) (account : Text) (already gross payment : ℕ)
    (s : Settlement)
    → account ≢ []
    → text_eq account (bytes "1510") ≡ false
    → inv.amount_paid ≡ pos already
    → 0 < gross
    → gross < 2 ^ 62
    → already + payment < 2 ^ 62
    → settlement company inv account (pos gross) (pos payment) ≡ done s
    → IsSettled gross already payment s
settlement-IsSettled company inv account already gross payment s a n q g k b e =
    let (h, either) = settlement-cases company inv account (pos gross) payment s e in
    elim either [
      | inl f ↦
          foreign_settlement-IsSettled account already gross payment s a n h g k (omega arith)
            (ap (λ x. foreign_settlement account x (pos gross) (pos payment)) (sym q) ∙ f)
      | inr f ↦
          sek_settlement-IsSettled account already gross payment s a n h k b
            (ap (λ x. sek_settlement account x (pos gross) (pos payment)) (sym q) ∙ f)
    ]

-- Of a payment that is not negative, the lines of a payment of SEK are refused exactly when it exceeds
-- what is left by a krona or more, for amounts below 2 ^ 62.
pub sek_settlement_refuses :
    (account : Text) (already gross payment : ℕ)
    → gross < 2 ^ 62
    → already + payment < 2 ^ 62
    → (sek_settlement account (pos already) (pos gross) (pos payment) ≡ failed payment_mismatch)
      ↔ (gross + 100 ≤ already + payment)
unfolding sek_settlement abs_amount
sek_settlement_refuses account already gross payment k b =
    elim (Bool-cases (leb (already + payment) gross)) [
      | inl le ↦
          let eq = add_fits already (pos payment) refl (omega arith) in
          let sum = sub_above (already + payment) (gross - (already + payment)) (omega arith) in
          let same : already + payment + (gross - (already + payment)) ≡ gross = ground arith in
          ground arith
      | inr gt ↦
          let m = already + payment - gross - 1 in
          let same : gross + suc m ≡ already + payment = ground arith in
          let eq = add_fits already (pos payment) refl (omega arith) in
          let sum = sub_below gross m (omega arith) in
          let back = neg_below m (omega arith) in ground arith
    ]
