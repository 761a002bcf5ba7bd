-- ===== src/Ledger/Reports/Balanced.antt =====
-- The accounting identities of internal/ledger/reports.go.
use pare.Common.{
  Text, Bool, true, List, [], ◌∷◌, ◌≡◌, refl, sym, ap, ◌∙◌, arith, All, none, if◌then◌else◌,
}
use pare.Common.Int.{ℤ, pos, neg_part, ◌-ℤ◌, int_laws}
use pare.Common.Int64.{
  IsInt64, wrap, add, sub, neg, add_assoc, add_comm, add_zero, wrap_laws, wrap_of_IsInt64,
  wrap-sub_right,
}
use pare.Ledger.Money.{Amount}
use pare.Ledger.Chart.{is_result, classify}
use pare.Ledger.Verification.{Line, Verification, validate}
use pare.Ledger.Verification.Postable.{
  HasInt64, IsOneSided, debit_sum, credit_sum, IsPostable, validate_iff,
}
use pare.Ledger.Reports.{
  Balances, balances_lines, add_to, balances, balances_from, AccountBalance, rows_of, sort_rows,
  trial_balance, result_from, result, result_of_from, result_of,
}
use pare.Ledger.Reports.Sums.{
  chosen_sum, class_sum, chosen_sum-add_to, class_sum-rows_of, class_sum-sort_rows,
  chosen_sum-IsInt64, class_sum-IsInt64,
}

-- The sum of all the rows of a trial balance, as an int64.
abbrev pub net_total : List AccountBalance → Amount
net_total = class_sum (λ c. true)

-- The verifikat have amounts of type int64 and pass Validate.
abbrev pub AreValid : List Verification → Type 0
AreValid = All (λ v. All HasInt64 v.lines × (validate v ≡ none))

abbrev everything : Text → Bool
everything k = true

-- Debit less credit over all the lines, as an int64.
abbrev all_net : List Line → Amount
all_net [] = pos 0
all_net (l ∷ ls) = add (sub l.debit l.credit) (all_net ls)

one_sided_parts : (l : Line) → IsOneSided l → (neg_part l.debit ≡ 0) × (neg_part l.credit ≡ 0)
one_sided_parts l h = ground arith

all_net-sums :
    (ls : List Line)
    → All IsOneSided ls
    → all_net ls ≡ wrap (pos (debit_sum ls) -ℤ pos (credit_sum ls))
unfolding add sub ◌-ℤ◌
all_net-sums [] h = sym (wrap_of_IsInt64 (pos 0 -ℤ pos 0) (omega int_laws))
all_net-sums (l ∷ ls) h =
    rw (all_net-sums ls h.1) (simp wrap_laws (ap wrap (omega (int_laws, one_sided_parts l h.0))))

chosen_sum-balances_lines :
    (m : Balances) (ls : List Line)
    → chosen_sum everything (balances_lines m ls) ≡ add (chosen_sum everything m) (all_net ls)
unfolding balances_lines
chosen_sum-balances_lines m [] =
    sym (add_zero (chosen_sum everything m) (chosen_sum-IsInt64 everything m))
chosen_sum-balances_lines m (l ∷ ls) = cc (
  chosen_sum-balances_lines (add_to l.account (sub l.debit l.credit) m) ls,
  chosen_sum-add_to everything l.account (sub l.debit l.credit) m,
  add_comm (sub l.debit l.credit) (chosen_sum everything m),
  add_assoc (chosen_sum everything m) (sub l.debit l.credit) (all_net ls),
)

all_net-postable : (ls : List Line) → IsPostable ls → all_net ls ≡ pos 0
all_net-postable ls h =
    all_net-sums ls h.1 ∙ (ap wrap (omega (int_laws, h.2)) ∙ wrap_of_IsInt64 (pos 0) (omega arith))

balances_lines-balanced :
    (m : Balances) (ls : List Line)
    → IsPostable ls
    → chosen_sum everything (balances_lines m ls) ≡ chosen_sum everything m
balances_lines-balanced m ls h =
    chosen_sum-balances_lines m ls
    ∙ rw (all_net-postable ls h)
        (add_zero (chosen_sum everything m) (chosen_sum-IsInt64 everything m))

balances_from-balanced :
    (m : Balances) (vs : List Verification)
    → AreValid vs
    → chosen_sum everything (balances_from m vs) ≡ chosen_sum everything m
unfolding balances_from
balances_from-balanced m [] h = refl
balances_from-balanced m (v ∷ vs) h =
    balances_from-balanced (balances_lines m v.lines) vs h.1
    ∙ balances_lines-balanced m v.lines ((validate_iff v h.0.0).0 h.0.1)

-- The trial balance of verifikat that pass Validate nets to zero.
pub net_total-trial_balance :
    (vs : List Verification) → AreValid vs → net_total (trial_balance vs) ≡ pos 0
unfolding trial_balance balances
net_total-trial_balance vs h =
    class_sum-sort_rows (λ c. true) (rows_of (balances vs))
    ∙ class_sum-rows_of (λ c. true) (balances vs)
    ∙ balances_from-balanced [] vs h

add_zero_wrap : (a : ℤ) → wrap a ≡ add a (pos 0)
unfolding add
add_zero_wrap a = ap wrap (omega int_laws)

result_from-chosen_sum :
    (net : Amount) (m : Balances)
    → wrap (result_from net m) ≡ add net (chosen_sum (λ k. is_result (classify k)) m)
unfolding result_from
result_from-chosen_sum net [] = add_zero_wrap net
result_from-chosen_sum net ((acc, bal) ∷ m) = ground (
  arith,
  result_from-chosen_sum (if is_result (classify acc) then add net bal else net) m,
  add_assoc net bal (chosen_sum (λ k. is_result (classify k)) m),
)

pub result_of_from-class_sum :
    (net : Amount) (tb : List AccountBalance)
    → wrap (result_of_from net tb) ≡ add net (class_sum is_result tb)
unfolding result_of_from
result_of_from-class_sum net [] = add_zero_wrap net
result_of_from-class_sum net (r ∷ tb) = ground (
  arith,
  result_of_from-class_sum (if is_result r.class then add net r.net else net) tb,
  add_assoc net r.net (class_sum is_result tb),
)

neg-wrap : (a b : ℤ) → wrap a ≡ b → neg a ≡ neg b
unfolding neg
neg-wrap a b h = sym (wrap-sub_right (pos 0) a) ∙ rw h

zero_add : (a : ℤ) → IsInt64 a → add (pos 0) a ≡ a
zero_add a h = add_comm (pos 0) a ∙ add_zero a h

-- ResultOf is the sum of the result accounts with its sign changed.
pub result_of-class_sum : (tb : List AccountBalance) → result_of tb ≡ neg (class_sum is_result tb)
unfolding result_of
result_of-class_sum tb = neg-wrap (result_of_from (pos 0) tb) (class_sum is_result tb) (
    result_of_from-class_sum (pos 0) tb
    ∙ zero_add (class_sum is_result tb) (class_sum-IsInt64 is_result tb))

-- Result of verifikat is ResultOf of their trial balance.
pub result-trial_balance : (vs : List Verification) → result vs ≡ result_of (trial_balance vs)
unfolding result trial_balance
result-trial_balance vs =
    let chosen = λ (k : Text). is_result (classify k) in
    neg-wrap (result_from (pos 0) (balances vs)) (chosen_sum chosen (balances vs)) (
      result_from-chosen_sum (pos 0) (balances vs)
      ∙ zero_add (chosen_sum chosen (balances vs)) (chosen_sum-IsInt64 chosen (balances vs)))
    ∙ sym (
        result_of-class_sum (sort_rows (rows_of (balances vs)))
        ∙ ap neg (
            class_sum-sort_rows is_result (rows_of (balances vs))
            ∙ class_sum-rows_of is_result (balances vs)))
