-- ===== src/Ledger/Reports/OpenYear.antt =====
-- BuildStatements (internal/ledger/reports.go) in a year that is not closed: the figure that
-- balances the sheet is the result.
use pare.Common.{
  bytes, has_prefix, List, [], ◌∷◌, ◌≡◌, ◌≢◌, refl, sym, ap, ◌∙◌, arith, All, Bool-cases, inl, inr,
  if◌then◌else◌,
}
use pare.Common.Int.{ℤ, pos, ◌+ℤ◌, ◌-ℤ◌, int_laws}
use pare.Common.Int64.{
  IsInt64, wrap, add, sub, neg, add_assoc, add_comm, add_left_comm, add_zero, wrap_laws,
  wrap_of_IsInt64, wrap-add_left, wrap-wrap,
}
use pare.Ledger.Money.{Amount}
use pare.Ledger.Chart.{
  AccountClass, class_unknown, class_asset, class_equity_liability, class_income, is_result,
  is_balance,
}
use pare.Ledger.Reports.{
  AccountBalance, Namer, Statements, no_statements, add_result_row, add_result_rows,
  add_balance_row, add_balance_rows, balancing_figure, with_result, build_statements,
}
use pare.Ledger.Reports.Sums.{class_sum, class_sum-IsInt64}
use pare.Ledger.Reports.Identity.{result-build_statements_period}
use pare.Ledger.Reports.Balanced.{net_total, result_of-class_sum}

add_zero_wrap : (a : ℤ) → wrap a ≡ add a (pos 0)
unfolding add
add_zero_wrap a = ap wrap (omega int_laws)

add-wrap : (a y : ℤ) → add (wrap a) y ≡ add a y
unfolding add
add-wrap a y = simp wrap_laws refl

figure-row :
    (name : Namer) (r : AccountBalance) (c : AccountClass) (s : Statements)
    → balancing_figure (add_balance_row name r c s)
      ≡ (if is_balance c then add (balancing_figure s) r.net else wrap (balancing_figure s))
unfolding add_balance_row is_balance balancing_figure add sub neg
figure-row name r class_asset s = simp wrap_laws (ap wrap (omega int_laws))
figure-row name r class_equity_liability s = elim (Bool-cases (has_prefix r.account (bytes "20"))) [
  | inl e ↦ rw e (simp wrap_laws (ap wrap (omega int_laws)))
  | inr e ↦ rw e (simp wrap_laws (ap wrap (omega int_laws)))
]
figure-row name r _ s = simp wrap_laws refl

figure-rows :
    (name : Namer) (tb : List AccountBalance) (s : Statements)
    → wrap (balancing_figure (add_balance_rows name tb s))
      ≡ add (balancing_figure s) (class_sum is_balance tb)
unfolding add_balance_rows
figure-rows name [] s = add_zero_wrap (balancing_figure s)
figure-rows name (r ∷ tb) s = ground (
  arith,
  figure-rows name tb (add_balance_row name r r.class s),
  figure-row name r r.class s,
  add_assoc (balancing_figure s) r.net (class_sum is_balance tb),
  add-wrap (balancing_figure s) (class_sum is_balance tb),
)

figure-result_row :
    (name : Namer) (r : AccountBalance) (c : AccountClass) (s : Statements)
    → balancing_figure (add_result_row name r c s) ≡ balancing_figure s
unfolding add_result_row balancing_figure
figure-result_row name r class_income s = refl
figure-result_row name r _ s = refl

figure-result_rows :
    (name : Namer) (tb : List AccountBalance) (s : Statements)
    → balancing_figure (add_result_rows name tb s) ≡ balancing_figure s
unfolding add_result_rows
figure-result_rows name [] s = refl
figure-result_rows name (r ∷ tb) s =
    figure-result_rows name tb (add_result_row name r r.class s)
    ∙ figure-result_row name r r.class s

figure_wrap : (s : Statements) → balancing_figure s ≡ wrap (balancing_figure s)
unfolding balancing_figure
figure_wrap s = sym (wrap-wrap (sub s.asset_total s.equity_total -ℤ s.liability_total))

figure-start :
    (name : Namer) (tb : List AccountBalance)
    → balancing_figure (with_result (add_result_rows name tb no_statements)) ≡ pos 0
unfolding with_result add_result_rows balancing_figure
figure-start name tb =
    figure-result_rows name tb no_statements ∙ (unfold balancing_figure wrap ◌-ℤ◌ in refl)

regroup : (b r : ℤ) → b ≡ b +ℤ r +ℤ (pos 0 -ℤ r)
regroup b r = omega int_laws

-- What adds up to zero is the opposite.
eq_neg : (b r : ℤ) → IsInt64 b → add b r ≡ pos 0 → b ≡ neg r
unfolding add neg
eq_neg b r h e =
    sym (wrap_of_IsInt64 b h)
    ∙ ap wrap (regroup b r)
    ∙ sym (wrap-add_left (b +ℤ r) (pos 0 -ℤ r))
    ∙ rw e (ap wrap (omega int_laws))

-- Every row stands in a class of the chart.
abbrev pub AreClassified : List AccountBalance → Type 0
AreClassified = All (λ r. r.class ≢ class_unknown)

split_row :
    (c : AccountClass) (n : Amount) (tb : List AccountBalance)
    → c ≢ class_unknown
    → net_total tb ≡ add (class_sum is_balance tb) (class_sum is_result tb)
    → add n (net_total tb)
      ≡ add
          (if is_balance c then add n (class_sum is_balance tb) else class_sum is_balance tb)
          (if is_result c then add n (class_sum is_result tb) else class_sum is_result tb)
unfolding is_balance is_result
split_row class_unknown n tb h e = absurd (h refl)
split_row class_asset n tb h e =
    ground (arith, add_assoc n (class_sum is_balance tb) (class_sum is_result tb))
split_row class_equity_liability n tb h e =
    ground (arith, add_assoc n (class_sum is_balance tb) (class_sum is_result tb))
split_row _ n tb h e =
    ground (arith, add_left_comm n (class_sum is_balance tb) (class_sum is_result tb))

class_sum-split :
    (tb : List AccountBalance)
    → AreClassified tb
    → net_total tb ≡ add (class_sum is_balance tb) (class_sum is_result tb)
class_sum-split [] h = sym (add_zero (pos 0) (omega arith))
class_sum-split (r ∷ tb) h = split_row r.class r.net tb h.0 (class_sum-split tb h.1)

-- The statements before the computed row is added.
abbrev pub posted : List AccountBalance → Namer → Statements
posted tb name = add_balance_rows name tb (with_result (add_result_rows name tb no_statements))

-- In a year that is not closed, that is, for a trial balance that nets to zero and whose accounts
-- all have a class, assets less posted equity less liabilities is the result of the income statement.
pub balancing_figure-result :
    (tb : List AccountBalance) (name : Namer)
    → net_total tb ≡ pos 0
    → AreClassified tb
    → balancing_figure (posted tb name) ≡ (build_statements tb name).result
unfolding build_statements
balancing_figure-result tb name z h =
    let s = with_result (add_result_rows name tb no_statements) in
    let b = class_sum is_balance tb in
    let r = class_sum is_result tb in
    figure_wrap (posted tb name)
    ∙ figure-rows name tb s
    ∙ rw (figure-start name tb) (
        add_comm (pos 0) b
        ∙ add_zero b (class_sum-IsInt64 is_balance tb)
        ∙ eq_neg b r (class_sum-IsInt64 is_balance tb) (sym (class_sum-split tb h) ∙ z)
        ∙ sym (result_of-class_sum tb)
        ∙ sym (result-build_statements_period tb tb name))
