-- ===== src/Invoice/Balance.antt =====
-- The verifikat lines of an invoice (internal/invoice/invoice.go) have equal sides.
use pare.Common.{
  List, [], ◌∷◌, ◌++◌, ◌≡◌, refl, sym, ◌∙◌, ap, arith, Option-cases, inl, inr, if◌then◌else◌,
}
use pare.Common.Int.{ℤ, pos, eqb_ℤ, eqb_ℤ→eq}
use pare.Common.Rounding.{round_div-IsInt64}
use pare.Common.Int64.{mul, IsInt64, add, add_assoc, add_comm, add_zero, add-IsInt64}
use pare.Ledger.Money.{Amount}
use pare.Ledger.Verification.{Line, Verification, totals, totals_from}
use pare.Moms.{Code}
use pare.Invoice.{
  Invoice, Aggs, agg_of, convert_to_sek, code_lines, receivable, sales_from, verification_lines,
  code_order, aggregate, ppm_of,
}

abbrev debits : List Line → Amount
debits [] = pos 0
debits (l ∷ ls) = add l.debit (debits ls)

abbrev credits : List Line → Amount
credits [] = pos 0
credits (l ∷ ls) = add l.credit (credits ls)

debits-IsInt64 : (ls : List Line) → IsInt64 (debits ls)
debits-IsInt64 [] = omega arith
debits-IsInt64 (l ∷ ls) = add-IsInt64 l.debit (debits ls)

credits-IsInt64 : (ls : List Line) → IsInt64 (credits ls)
credits-IsInt64 [] = omega arith
credits-IsInt64 (l ∷ ls) = add-IsInt64 l.credit (credits ls)

-- Totals adds the two sides up.
totals_from-sums :
    (d c : Amount) (ls : List Line)
    → IsInt64 d
    → IsInt64 c
    → ((totals_from d c ls).0 ≡ add d (debits ls)) × ((totals_from d c ls).1 ≡ add c (credits ls))
unfolding totals_from
totals_from-sums d c [] hd hc = (sym (add_zero d hd), sym (add_zero c hc))
totals_from-sums d c (l ∷ ls) hd hc =
    let (p, q) =
      totals_from-sums (add d l.debit) (add c l.credit) ls (add-IsInt64 d l.debit)
        (add-IsInt64 c l.credit) in
    (p ∙ add_assoc d l.debit (debits ls), q ∙ add_assoc c l.credit (credits ls))

zero_add : (a : ℤ) → IsInt64 a → add (pos 0) a ≡ a
zero_add a h = add_comm (pos 0) a ∙ add_zero a h

credits-append : (xs ys : List Line) → credits (xs ++ ys) ≡ add (credits xs) (credits ys)
credits-append [] ys = sym (zero_add (credits ys) (credits-IsInt64 ys))
credits-append (x ∷ xs) ys =
    ap (add x.credit) (credits-append xs ys) ∙ sym (add_assoc x.credit (credits xs) (credits ys))

debits-append : (xs ys : List Line) → debits (xs ++ ys) ≡ add (debits xs) (debits ys)
debits-append [] ys = sym (zero_add (debits ys) (debits-IsInt64 ys))
debits-append (x ∷ xs) ys =
    ap (add x.debit) (debits-append xs ys) ∙ sym (add_assoc x.debit (debits xs) (debits ys))

convert_to_sek-IsInt64 : (x ppm : ℤ) → IsInt64 (convert_to_sek x ppm)
unfolding convert_to_sek
convert_to_sek-IsInt64 x ppm =
    round_div-IsInt64 (mul x (if eqb_ℤ ppm (pos 0) then pos 1000000 else ppm)) 500000 1000000

-- What is credited for a code is its net and VAT; a VAT line that is left out was zero.
code_lines-sums :
    (c : Code) (n v : Amount)
    → IsInt64 v
    → (debits (code_lines c n v) ≡ pos 0) × (credits (code_lines c n v) ≡ add n v)
code_lines-sums c n v h =
    ground (arith, eqb_ℤ→eq v (pos 0), add_zero v h, add_zero (pos 0) (omega arith))

-- The sales lines so far are all credits, and sum to the gross so far.
abbrev IsBooked : List Line → Amount → Type 0
IsBooked sales gross = (debits sales ≡ pos 0) × (credits sales ≡ gross)

IsBooked-code_lines :
    (sales : List Line) (gross : Amount) (c : Code) (n v : Amount)
    → IsInt64 v
    → IsBooked sales gross
    → IsBooked (sales ++ code_lines c n v) (add gross (add n v))
IsBooked-code_lines sales gross c n v h (d, e) =
    let (p, q) = code_lines-sums c n v h in
    (
      debits-append sales (code_lines c n v) ∙ rw (d, p) (add_zero (pos 0) (omega arith)),
      credits-append sales (code_lines c n v) ∙ rw (e, q),
    )

IsBooked-sales_from :
    (cs : List Code) (by : Aggs) (ppm : ℤ) (sales : List Line) (gross : Amount)
    → IsBooked sales gross
    → let (all, sum) = sales_from cs by ppm sales gross in IsBooked all sum
unfolding sales_from
IsBooked-sales_from [] by ppm sales gross h = h
IsBooked-sales_from (c ∷ cs) by ppm sales gross h = elim (Option-cases (agg_of c by)) [
  | inl e ↦ rw (sales_from, e) (IsBooked-sales_from cs by ppm sales gross h)
  | inr (a, e) ↦
      let n = convert_to_sek a.net ppm in
      let v = convert_to_sek a.vat ppm in
      rw (sales_from, e)
        (IsBooked-sales_from cs by ppm (sales ++ code_lines c n v) (add gross (add n v))
          (IsBooked-code_lines sales gross c n v (convert_to_sek-IsInt64 a.vat ppm) h))
]

receivable-sums :
    (sales : List Line) (gross : Amount)
    → IsBooked sales gross
    → let ls = receivable gross ∷ sales in
      (totals_from (pos 0) (pos 0) ls).0 ≡ (totals_from (pos 0) (pos 0) ls).1
receivable-sums sales gross (d, e) =
    let (p, q) =
      totals_from-sums (pos 0) (pos 0) (receivable gross ∷ sales) (omega arith) (omega arith) in
    p ∙ ap (add (pos 0)) (rw (d, e) (add_comm gross (pos 0))) ∙ sym q

-- The total debit and the total credit of the lines of an invoice are the same int64, for any lines,
-- codes and rate.
pub totals-verification_lines :
    (inv : Invoice) (v : Verification)
    → v.lines ≡ verification_lines inv
    → (totals v).0 ≡ (totals v).1
unfolding totals verification_lines
totals-verification_lines inv v e =
    let by = aggregate [] inv.lines in
    let (sales, gross) = sales_from code_order by (ppm_of inv) [] (pos 0) in
    let booked = IsBooked-sales_from code_order by (ppm_of inv) [] (pos 0) (refl, refl) in
    rw e (receivable-sums sales gross booked)
