-- ===== src/Store/Views/Matching.antt =====
-- MatchOpenInvoices (internal/store/store_mcp.go): the invoices that an amount may settle.
use pare.Common.{
  ℕ, ◌+◌, ◌≤◌, ◌<◌, ◌^◌, ◌≡◌, ◌≢◌, ◌↔◌, ◌⊎◌, refl, ap, ◌∙◌, Text, Bool, Bool-cases, true, false,
  inl, inr, List, [], ◌∷◌, ◌++◌, All, arith,
}
use pare.Common.Int.{
  ℤ, pos, negsuc, pos_part, neg_part, ◌+ℤ◌, ◌-ℤ◌, ◌≤ℤ◌, ltb_ℤ, eqb_ℤ, +ℤ_parts, -ℤ_parts,
  eq_of_parts,
}
use pare.Common.Int64.{sub, sub_exact}
use pare.Ledger.Money.{Amount}
use pare.Store.{
  Db, Status, draft, finalized, paid, cancelled, credited, is_finalized, Outcome, done, and_then,
}
use pare.Store.Env.{Env}
use pare.Store.Payment.{abs_amount, ores_rounding_threshold}
use pare.Store.Payment.Cleared.{neg_below}
use pare.Store.Views.{
  InvoiceSummary, kept, list_invoice_summaries, is_receivable, difference, is_exact, is_near,
  match_open_invoices,
}

-- `ys` are the elements of `xs` that are P, in their order, each as often as it stands there.
abbrev pub IsSelected : {A : Type 0} → (A → Type 0) → List A → List A → Type 0
IsSelected P [] ys = ys ≡ []
IsSelected {A} P (x ∷ xs) ys =
    (P x × (zs : List A) × (ys ≡ x ∷ zs) × IsSelected P xs zs) ⊎ ((¬ P x) × IsSelected P xs ys)

-- An amount far from the ends of int64.
abbrev pub IsSmall : Amount → Type 0
IsSmall a = (pos_part a < 2 ^ 61) × (neg_part a < 2 ^ 61)

abbrev pub IsInRange : InvoiceSummary → Type 0
IsInRange s = IsSmall s.total_sek × IsSmall s.amount_paid

-- A finalized invoice that is no credit note.
abbrev pub IsOpen : InvoiceSummary → Type 0
IsOpen s = (s.status ≡ finalized) × (s.is_credit ≡ false)

is_finalized_iff : (s : Status) → (is_finalized s ≡ true) ↔ (s ≡ finalized)
is_finalized_iff draft = (λ e. absurd (cc), λ e. absurd (cc))
is_finalized_iff finalized = (λ e. refl, λ e. refl)
is_finalized_iff paid = (λ e. absurd (cc), λ e. absurd (cc))
is_finalized_iff cancelled = (λ e. absurd (cc), λ e. absurd (cc))
is_finalized_iff credited = (λ e. absurd (cc), λ e. absurd (cc))

-- A difference is as large as its two sides at most.
-ℤ_bounds :
    (a b : ℤ)
    → (pos_part (a -ℤ b) ≤ pos_part a + neg_part b) × (neg_part (a -ℤ b) ≤ neg_part a + pos_part b)
unfolding ◌-ℤ◌
-ℤ_bounds a b = ground arith

one_is_zero : (d : ℤ) → (pos_part d ≡ 0) ⊎ (neg_part d ≡ 0)
one_is_zero (pos n) = inr refl
one_is_zero (negsuc m) = inl refl

abs_small :
    (d : Amount)
    → neg_part d < 2 ^ 63
    → (ltb_ℤ (abs_amount d) ores_rounding_threshold ≡ true)
      ↔ ((pos_part d < 100) × (neg_part d < 100))
unfolding abs_amount
abs_small (pos n) h = ground arith
abs_small (negsuc m) h = let e = neg_below m h in ground arith

module _ (amount : Amount) where
  -- What was paid and the amount are the total.
  abbrev pub IsExact : InvoiceSummary → Type 0
  IsExact s = IsOpen s × (s.total_sek ≡ s.amount_paid +ℤ amount)

  -- They are not, but the two differ by less than a krona.
  abbrev pub IsNear : InvoiceSummary → Type 0
  IsNear s =
      IsOpen s
      × (s.total_sek ≢ s.amount_paid +ℤ amount)
      × (s.total_sek ≤ℤ (s.amount_paid +ℤ amount) +ℤ pos 99)
      × ((s.amount_paid +ℤ amount) ≤ℤ s.total_sek +ℤ pos 99)

  is_receivable_iff : (s : InvoiceSummary) → (is_receivable s ≡ true) ↔ IsOpen s
  is_receivable_iff s = ground (arith, is_finalized_iff s.status)

  module _ (small : IsSmall amount) (s : InvoiceSummary) (range : IsInRange s) where
    -- The difference does not wrap around.
    difference_exact : difference amount s ≡ (s.total_sek -ℤ s.amount_paid) -ℤ amount
    unfolding difference
    difference_exact =
        let b = -ℤ_bounds s.total_sek s.amount_paid in
        let c = -ℤ_bounds (s.total_sek -ℤ s.amount_paid) amount in
        let left = sub_exact s.total_sek s.amount_paid (omega arith) in
        ap (λ d. sub d amount) left ∙ sub_exact (s.total_sek -ℤ s.amount_paid) amount (omega arith)

    -- Its two parts, by those of the amounts.
    difference_parts :
        (pos_part (difference amount s)
            + neg_part s.total_sek
            + pos_part s.amount_paid
            + pos_part amount
          ≡ neg_part (difference amount s)
            + pos_part s.total_sek
            + neg_part s.amount_paid
            + neg_part amount)
        × (neg_part (difference amount s) < 2 ^ 63)
    difference_parts =
        let e = difference_exact in
        let b = -ℤ_bounds s.total_sek s.amount_paid in
        let c = -ℤ_bounds (s.total_sek -ℤ s.amount_paid) amount in
        rw e (
          omega (
            arith,
            -ℤ_parts s.total_sek s.amount_paid,
            -ℤ_parts (s.total_sek -ℤ s.amount_paid) amount,
          ),
          omega arith,
        )

    equal_iff :
        (eqb_ℤ (difference amount s) (pos 0) ≡ true) ↔ (s.total_sek ≡ s.amount_paid +ℤ amount)
    equal_iff =
        let d = difference_parts.0 in
        let sum = +ℤ_parts s.amount_paid amount in
        (
          λ h. eq_of_parts s.total_sek (s.amount_paid +ℤ amount) (ground arith),
          λ h. let p = ap pos_part h in let n = ap neg_part h in ground arith,
        )

    -- The two sides are apart by less than a krona.
    close_iff : (ltb_ℤ (abs_amount (difference amount s)) ores_rounding_threshold ≡ true) ↔ (
        (s.total_sek ≤ℤ (s.amount_paid +ℤ amount) +ℤ pos 99)
        × ((s.amount_paid +ℤ amount) ≤ℤ s.total_sek +ℤ pos 99))
    close_iff =
        let d = difference_parts.0 in
        let sum = +ℤ_parts s.amount_paid amount in
        let above = +ℤ_parts (s.amount_paid +ℤ amount) (pos 99) in
        let below = +ℤ_parts s.total_sek (pos 99) in
        let small = abs_small (difference amount s) difference_parts.1 in
        let apart = one_is_zero (difference amount s) in
        (
          λ h. let (p, n) = small.0 h in (omega arith, omega arith),
          λ h. small.1 (omega arith, omega arith),
        )

    IsExact-iff : (is_exact amount s ≡ true) ↔ IsExact s
    IsExact-iff = ground (arith, is_receivable_iff s, equal_iff)

    IsNear-iff : (is_near amount s ≡ true) ↔ IsNear s
    IsNear-iff = elim (Bool-cases (eqb_ℤ (difference amount s) (pos 0))) [
      | inl e ↦ (λ h. absurd (ground arith), λ h. absurd (h.1 (equal_iff.0 e)))
      | inr e ↦ (
        λ h.
            let r : is_receivable s ≡ true = ground arith in
            let c : ltb_ℤ (abs_amount (difference amount s)) ores_rounding_threshold ≡ true =
              ground arith in
            (
              (is_receivable_iff s).0 r,
              λ q. absurd (cc (equal_iff.1 q)),
              (close_iff.0 c).0,
              (close_iff.0 c).1,
            ),
        λ h. let r = (is_receivable_iff s).1 h.0 in let c = close_iff.1 (h.2, h.3) in ground arith,
      )
    ]

-- Each element is in range, and P says of each what p tests.
kept-IsSelected :
    {A : Type 0} (R P : A → Type 0) (p : A → Bool)
    → ((x : A) → R x → (p x ≡ true) ↔ P x)
    → (xs : List A) → All R xs
    → IsSelected P xs (kept p xs)
kept-IsSelected R P p iff [] h = refl
kept-IsSelected R P p iff (x ∷ xs) (h, hs) = elim (Bool-cases (p x)) [
  | inl e ↦ rw (e, kept) (inl ((iff x h).0 e, kept p xs, refl, kept-IsSelected R P p iff xs hs))
  | inr e ↦ rw (e, kept) (inr (λ k. absurd (cc ((iff x h).1 k)), kept-IsSelected R P p iff xs hs))
]

module _ (env : Env) (trim_space : Text → Text) (today : ℕ) (company : Text) (amount : Amount)
    (db : Db) where
  -- When the invoices of a company load, with amounts whose size is below 2 ^ 61, its matches of such an
  -- amount are two lists, one after the other. The first is of those of its invoices that are finalized,
  -- are no credit notes, and whose total is what was paid with the amount; the second of those where the
  -- two are different, but by less than a krona. Both keep the order of the invoices, and list each as
  -- often as it stands there.
  pub match_open_invoices_lem :
      (all : List InvoiceSummary)
      → IsSmall amount
      → All IsInRange all
      → list_invoice_summaries env trim_space today company db ≡ done all
      → (exact near : List InvoiceSummary) × (match_open_invoices env trim_space today company
            amount db
          ≡ done (exact ++ near))
        × IsSelected (IsExact amount) all exact
        × IsSelected (IsNear amount) all near
  unfolding match_open_invoices
  match_open_invoices_lem all small range e = (
    kept (is_exact amount) all,
    kept (is_near amount) all,
    ap
        (λ (o : Outcome (List InvoiceSummary)).
          and_then o (λ all. done (kept (is_exact amount) all ++ kept (is_near amount) all)))
        e,
    kept-IsSelected IsInRange (IsExact amount) (is_exact amount) (IsExact-iff amount small) all
        range,
    kept-IsSelected IsInRange (IsNear amount) (is_near amount) (IsNear-iff amount small) all range,
  )
