-- ===== src/Store/FiscalYear/Balance.antt =====
-- The lines of a year-end close (internal/store/store_fiscalyear.go) have equal sides.
use pare.Common.{◌≡◌, sym, ap, ◌∙◌, some, List, [], ◌∷◌, ◌++◌, true, arith, Bool-cases, inl, inr}
use pare.Common.Int.{ℤ, pos, eqb_ℤ, eqb_ℤ→eq, int_laws}
use pare.Common.Int64.{
  IsInt64, add, sub, neg, add_assoc, add_zero, wrap, wrap_laws, wrap_of_IsInt64, add-IsInt64,
}
use pare.Ledger.Money.{Amount, is_pos}
use pare.Ledger.Chart.{is_result}
use pare.Ledger.Verification.{Line, Verification, totals, totals_from}
use pare.Ledger.Reports.{AccountBalance, result_of, result_of_from}
use pare.Store.FiscalYear.{emptying_lines, result_line, close_lines}

-- What the lines debit, less what they credit.
abbrev effect : List Line → Amount
effect [] = pos 0
effect (l ∷ ls) = add (sub l.debit l.credit) (effect ls)

zero_left : (a b : ℤ) → add a b ≡ add (pos 0) (add a b)
unfolding add
zero_left a b = simp wrap_laws (ap wrap (omega int_laws))

zero_right : (d c : ℤ) → sub d c ≡ add (sub d c) (pos 0)
unfolding add sub
zero_right d c = simp wrap_laws (ap wrap (omega int_laws))

effect-append : (xs ys : List Line) → effect (xs ++ ys) ≡ add (effect xs) (effect ys)
effect-append [] [] = sym (add_zero (pos 0) (omega arith))
effect-append [] (y ∷ ys) = zero_left (sub y.debit y.credit) (effect ys)
effect-append (x ∷ xs) ys =
    ap (add (sub x.debit x.credit)) (effect-append xs ys)
    ∙ sym (add_assoc (sub x.debit x.credit) (effect xs) (effect ys))

effect_step : (d c a b e : ℤ) → add (sub (add d a) (add c b)) e ≡ add (sub d c) (add (sub a b) e)
unfolding add sub
effect_step d c a b e = simp wrap_laws (ap wrap (omega int_laws))

-- Totals, by its difference.
totals_from-effect :
    (d c : Amount) (ls : List Line)
    → sub (totals_from d c ls).0 (totals_from d c ls).1 ≡ add (sub d c) (effect ls)
unfolding totals_from
totals_from-effect d c [] = zero_right d c
totals_from-effect d c (l ∷ ls) =
    totals_from-effect (add d l.debit) (add c l.credit) ls
    ∙ effect_step d c l.debit l.credit (effect ls)

-- A line that empties an account moves its balance to the other side of the sum.
credit_moved : (n e s : ℤ) → add (add (sub (pos 0) n) e) (neg s) ≡ add e (neg (add s n))
unfolding add sub neg
credit_moved n e s = simp wrap_laws (ap wrap (omega int_laws))

debit_moved : (n e s : ℤ) → add (add (sub (neg n) (pos 0)) e) (neg s) ≡ add e (neg (add s n))
unfolding add sub neg
debit_moved n e s = simp wrap_laws (ap wrap (omega int_laws))

zero_moved : (n e s : ℤ) → eqb_ℤ n (pos 0) ≡ true → add e (neg s) ≡ add e (neg (add s n))
unfolding add neg
zero_moved n e s h = rw (eqb_ℤ→eq n (pos 0) h) (simp wrap_laws (ap wrap (omega int_laws)))

neg_alone : (s : ℤ) → add (pos 0) (neg s) ≡ neg s
unfolding add neg
neg_alone s = simp wrap_laws (ap wrap (omega int_laws))

credited : (a : ℤ) → add (sub (pos 0) a) (pos 0) ≡ neg a
unfolding add sub neg
credited a = simp wrap_laws (ap wrap (omega int_laws))

debited : (a : ℤ) → add (sub (neg a) (pos 0)) (pos 0) ≡ neg a
unfolding add sub neg
debited a = simp wrap_laws (ap wrap (omega int_laws))

-- Emptying the accounts has the effect of the result.
effect-emptying_lines :
    (net : Amount) (tb : List AccountBalance)
    → add (effect (emptying_lines tb)) (neg net) ≡ neg (result_of_from net tb)
unfolding emptying_lines result_of_from
effect-emptying_lines net [] = neg_alone net
effect-emptying_lines net (r ∷ tb) =
    let e = effect (emptying_lines tb) in
    elim (Bool-cases (is_result r.class)) [
      | inr b ↦ rw b (effect-emptying_lines net tb)
      | inl b ↦
          let rest = effect-emptying_lines (add net r.net) tb in
          elim (Bool-cases (eqb_ℤ r.net (pos 0))) [
            | inl z ↦ rw (b, z) (zero_moved r.net e net z ∙ rest)
            | inr z ↦ elim (Bool-cases (is_pos r.net)) [
              | inl p ↦ rw (b, z, p) (credit_moved r.net e net ∙ rest)
              | inr p ↦ rw (b, z, p) (debit_moved r.net e net ∙ rest)
            ]
          ]
    ]

result_line_effect :
    (result : Amount)
    → add (sub (result_line result).debit (result_line result).credit) (pos 0) ≡ neg result
unfolding result_line
result_line_effect result = elim (Bool-cases (is_pos result)) [
  | inl p ↦ rw p (credited result)
  | inr p ↦ rw p (debited result)
]

totals_from-IsInt64 :
    (d c : Amount) (ls : List Line)
    → IsInt64 d
    → IsInt64 c
    → IsInt64 (totals_from d c ls).0 × IsInt64 (totals_from d c ls).1
unfolding totals_from
totals_from-IsInt64 d c [] hd hc = (hd, hc)
totals_from-IsInt64 d c (l ∷ ls) hd hc =
    totals_from-IsInt64 (add d l.debit) (add c l.credit) ls (add-IsInt64 d l.debit)
      (add-IsInt64 c l.credit)

close_lines-append :
    (tb : List AccountBalance) (ls : List Line)
    → close_lines tb ≡ some ls
    → ls ≡ emptying_lines tb ++ result_line (result_of tb) ∷ []
unfolding close_lines
close_lines-append tb ls e = ground arith

cancelled : (e : ℤ) → add e (neg (add e (neg (pos 0)))) ≡ pos 0
unfolding add neg
cancelled e = simp wrap_laws ((ap wrap (omega int_laws)) ∙ wrap_of_IsInt64 (pos 0) (omega arith))

effect_of_close :
    (tb : List AccountBalance)
    → effect (emptying_lines tb ++ result_line (result_of tb) ∷ []) ≡ pos 0
unfolding result_of
effect_of_close tb =
    let e = effect (emptying_lines tb) in
    effect-append (emptying_lines tb) (result_line (result_of tb) ∷ [])
    ∙ ap (add e) (result_line_effect (result_of tb))
    ∙ ap (λ r. add e (neg r)) (sym (effect-emptying_lines (pos 0) tb))
    ∙ cancelled e

restored : (x y : ℤ) → IsInt64 x → add y (sub x y) ≡ x
unfolding add sub
restored x y h = simp wrap_laws ((ap wrap (omega int_laws)) ∙ wrap_of_IsInt64 x h)

equal_sides : (x y : ℤ) → IsInt64 x → IsInt64 y → sub x y ≡ pos 0 → x ≡ y
equal_sides x y hx hy z = sym (restored x y hx) ∙ ap (add y) z ∙ add_zero y hy

no_effect : (e : Amount) → e ≡ pos 0 → add (sub (pos 0) (pos 0)) e ≡ pos 0
unfolding add sub
no_effect e h =
    rw h (simp wrap_laws ((ap wrap (omega int_laws)) ∙ wrap_of_IsInt64 (pos 0) (omega arith)))

-- The total debit and the total credit of the lines that close a year are the same int64, for any
-- trial balance.
pub totals-close_lines :
    (tb : List AccountBalance) (v : Verification)
    → close_lines tb ≡ some v.lines
    → (totals v).0 ≡ (totals v).1
unfolding totals
totals-close_lines tb v e =
    let (dx, cx) = totals_from-IsInt64 (pos 0) (pos 0) v.lines (omega arith) (omega arith) in
    let zero = ap effect (close_lines-append tb v.lines e) ∙ effect_of_close tb in
    equal_sides (totals v).0 (totals v).1 dx cx
      (totals_from-effect (pos 0) (pos 0) v.lines ∙ no_effect (effect v.lines) zero)
