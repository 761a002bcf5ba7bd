-- ===== src/Store/Invoices/Payments/Refused.antt =====
-- Which payments of an invoice in SEK RecordPayment (internal/store/store_payment.go) turns down before
-- its transaction.
use pare.Common.{
  ℕ, ◌+◌, ◌≤◌, ◌<◌, ◌^◌, ◌≡◌, ◌⊎◌, refl, ap, sym, ◌∙◌, inl, inr, leb, Bool-cases, Text, bytes,
  text_eq_iff, false, Option, some, if◌then◌else◌, arith,
}
use pare.Common.Int.{pos, pos_part, ◌≤ℤ◌, leb_ℤ}
use pare.Ledger.Money.{Amount}
use pare.Store.{
  InvoiceRow, Db, StoreError, Outcome, Outcome-cases, failed, done, Pool, finalized,
  payment_mismatch, find_row,
}
use pare.Store.Env.{Env}
use pare.Store.Audit.{Actor}
use pare.Store.Act.{Act, lift, from, transaction, ◌>>=◌}
use pare.Store.Act.Steps.{read_done}
use pare.Store.Payment.{Settlement, payment_allowed, sek_settlement, settlement}
use pare.Store.Payment.Cleared.{sek_settlement_refuses}
use pare.Store.Invoices.{has_invoice_id}
use pare.Store.Invoices.Payments.{total_sek_for_render, settle, record_payment}

-- Nothing, less than nothing, or a krona or more above what is left.
abbrev pub IsRefused : ℕ → ℕ → Amount → Type 0
IsRefused gross already payment = (payment ≤ℤ pos 0) ⊎ (gross + 100 ≤ already + pos_part payment)

sek_settlement_error :
    (account : Text) (already gross payment : Amount) (e : StoreError)
    → sek_settlement account already gross payment ≡ failed e
    → e ≡ payment_mismatch
unfolding sek_settlement
sek_settlement_error account already gross payment e h = ground arith

-- What a statement that succeeds goes on to, and one that fails answers.
module _ {A B : Type 0} (db : Db) (k : A → Act B) where
  lift_next : (o : Outcome A) (a : A) → o ≡ done a → (lift o >>= k) db ≡ k a db
  unfolding lift ◌>>=◌
  lift_next o a h = rw h refl

  lift_stop : (o : Outcome A) (e : StoreError) → o ≡ failed e → (lift o >>= k) db ≡ (failed e, db)
  unfolding lift ◌>>=◌
  lift_stop o e h = rw h refl

  from_next : (f : Db → Outcome A) (a : A) → f db ≡ done a → (from f >>= k) db ≡ k a db
  unfolding from ◌>>=◌
  from_next f a h = rw h refl

module _ (company : Text) (inv : InvoiceRow) (payment : Amount) (own : inv.company_id ≡ company)
    (issued : inv.status ≡ finalized) where
  payment_allowed_lem :
      payment_allowed company inv payment
      ≡ (if leb_ℤ payment (pos 0) then failed payment_mismatch else done tt)
  unfolding payment_allowed
  payment_allowed_lem =
      let same = (text_eq_iff inv.company_id company).1 own in rw (same, issued) refl

  settlement_lem :
      (account : Text) (gross : Amount)
      → inv.currency ≡ bytes "SEK"
      → leb_ℤ payment (pos 0) ≡ false
      → settlement company inv account gross payment
        ≡ sek_settlement account inv.amount_paid gross payment
  unfolding settlement
  settlement_lem account gross sek positive =
      let same = (text_eq_iff inv.currency (bytes "SEK")).1 sek in
      rw (payment_allowed_lem, positive, same) refl

module _ (env : Env) (actor : Option Actor) (pool : Pool) (new_id company id : Text) (date : ℕ)
    (account : Text) (payment : Amount) (inv : InvoiceRow) (db : Db)
    (found : find_row (has_invoice_id id) db.invoices ≡ some inv) where
  abbrev asked : Outcome Text × Db
  asked = record_payment env actor pool new_id company id date account payment db

  asked_refused :
      payment_allowed company inv payment ≡ failed payment_mismatch
      → asked ≡ (failed payment_mismatch, db)
  unfolding record_payment
  asked_refused e =
      read_done _ db _ _ inv found
      ∙ lift_stop db _ (payment_allowed company inv payment) payment_mismatch e

  asked_settles :
      (gross : Amount)
      → payment_allowed company inv payment ≡ done tt
      → total_sek_for_render env actor pool company id db ≡ done gross
      → asked
        ≡ (lift (settlement company inv account gross payment) >>= λ s.
              transaction pool (settle env actor pool new_id company inv date payment s))
            db
  unfolding record_payment
  asked_settles gross e t =
      read_done _ db _ _ inv found
      ∙ lift_next db _ (payment_allowed company inv payment) tt e
      ∙ from_next db _ (total_sek_for_render env actor pool company id) gross t

  -- For a finalized invoice of the company in SEK that renders, with what it bills and what is paid
  -- below 2 ^ 62, RecordPayment either answers ErrPaymentMismatch and leaves the database as it was,
  -- and the payment is not positive or exceeds what is left by a krona or more; or neither holds, and
  -- it goes on to its transaction with the lines of the payment. An instalment goes on too.
  pub record_payment-IsRefused :
      (already gross : ℕ)
      → inv.company_id ≡ company
      → inv.status ≡ finalized
      → inv.currency ≡ bytes "SEK"
      → inv.amount_paid ≡ pos already
      → total_sek_for_render env actor pool company id db ≡ done (pos gross)
      → gross < 2 ^ 62
      → already + pos_part payment < 2 ^ 62
      → (IsRefused gross already payment × (asked ≡ (failed payment_mismatch, db)))
        ⊎ ((¬ IsRefused gross already payment)
            × (s : Settlement) × (settlement company inv account (pos gross) payment ≡ done s)
            × (asked
                ≡ transaction pool (settle env actor pool new_id company inv date payment s) db))
  record_payment-IsRefused already gross own issued sek paid renders k b =
      elim (Bool-cases (leb_ℤ payment (pos 0))) [
        | inl nothing ↦ inl (
          inl (ground arith),
          asked_refused (payment_allowed_lem company inv payment own issued ∙ rw nothing refl),
        )
        | inr given ↦
            let p = pos_part payment in
            let same : payment ≡ pos p = ground arith in
            let allowed = payment_allowed_lem company inv payment own issued ∙ rw given refl in
            let next = asked_settles (pos gross) allowed renders in
            let lines : settlement company inv account (pos gross) payment
                ≡ sek_settlement account (pos already) (pos gross) (pos p) =
              settlement_lem company inv payment own issued account (pos gross) sek given
              ∙ ap (λ x. sek_settlement account x (pos gross) payment) paid
              ∙ ap (λ x. sek_settlement account (pos already) (pos gross) x) same in
            let not_refused : leb (gross + 100) (already + p) ≡ false
                → ¬ IsRefused gross already payment =
              λ fits r. ground arith in
            let iff = sek_settlement_refuses account already gross p k b in
            elim (Bool-cases (leb (gross + 100) (already + p))) [
              | inl over ↦ inl (
                inr (ground arith),
                next ∙ lift_stop db _ _ payment_mismatch (lines ∙ iff.1 (ground arith)),
              )
              | inr fits ↦
                  elim (Outcome-cases (settlement company inv account (pos gross) payment)) [
                    | inl (e, f) ↦
                        let m =
                          sek_settlement_error account (pos already) (pos gross) (pos p) e
                            (sym lines ∙ f) in
                        let above = iff.0 (sym lines ∙ f ∙ ap failed m) in absurd (ground arith)
                    | inr (s, f) ↦ inr (not_refused fits, s, f, next ∙ lift_next db _ _ s f)
                  ]
            ]
      ]
