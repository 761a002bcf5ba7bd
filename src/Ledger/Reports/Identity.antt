-- ===== src/Ledger/Reports/Identity.antt =====
-- The statements that BuildStatementsPeriod (internal/ledger/reports.go) derives: the balance sheet
-- balances, and the income statement agrees with ResultOf.
use pare.Common.{List, [], ◌∷◌, ◌≡◌, refl, sym, ap, ◌∙◌, arith, if◌then◌else◌}
use pare.Common.Int.{ℤ, pos, ◌+ℤ◌, ◌-ℤ◌, int_laws, eqb_ℤ→eq}
use pare.Common.Int64.{
  IsInt64, wrap, add, sub, neg, add-IsInt64, wrap_laws, wrap_of_IsInt64, wrap-add_left,
}
use pare.Ledger.Money.{Amount}
use pare.Ledger.Chart.{
  AccountClass, class_asset, class_equity_liability, class_income, class_expense, class_financial,
  is_result,
}
use pare.Ledger.Reports.{
  AccountBalance, result_of, Namer, Statements, no_statements, add_result_row, add_result_rows,
  add_balance_row, add_balance_rows, balancing_figure, fold_figure, with_result,
  build_statements_period,
}
use pare.Ledger.Reports.Sums.{class_sum}
use pare.Ledger.Reports.Balanced.{result_of-class_sum}

asset_total-row :
    (name : Namer) (r : AccountBalance) (c : AccountClass) (s : Statements)
    → IsInt64 s.asset_total
    → IsInt64 (add_balance_row name r c s).asset_total
unfolding add_balance_row
asset_total-row name r class_asset s h = add-IsInt64 s.asset_total r.net
asset_total-row name r class_equity_liability s h = ground arith
asset_total-row name r _ s h = h

asset_total-rows :
    (name : Namer) (tb : List AccountBalance) (s : Statements)
    → IsInt64 s.asset_total
    → IsInt64 (add_balance_rows name tb s).asset_total
unfolding add_balance_rows
asset_total-rows name [] s h = h
asset_total-rows name (r ∷ tb) s h =
    asset_total-rows name tb (add_balance_row name r r.class s) (asset_total-row name r r.class s h)

asset_total-result_row :
    (name : Namer) (r : AccountBalance) (c : AccountClass) (s : Statements)
    → (add_result_row name r c s).asset_total ≡ s.asset_total
unfolding add_result_row
asset_total-result_row name r class_income s = refl
asset_total-result_row name r _ s = refl

asset_total-result_rows :
    (name : Namer) (tb : List AccountBalance) (s : Statements)
    → (add_result_rows name tb s).asset_total ≡ s.asset_total
unfolding add_result_rows
asset_total-result_rows name [] s = refl
asset_total-result_rows name (r ∷ tb) s =
    asset_total-result_rows name tb (add_result_row name r r.class s)
    ∙ asset_total-result_row name r r.class s

sub_add_cancel : (a e l : ℤ) → a ≡ a -ℤ e -ℤ l +ℤ (e +ℤ l)
sub_add_cancel a e l = omega int_laws

figure_zero : (a e l : ℤ) → IsInt64 a → sub (sub a e) l ≡ pos 0 → a ≡ add e l
unfolding add sub
figure_zero a e l h z =
    let figure : wrap (a -ℤ e -ℤ l) ≡ pos 0 = simp wrap_laws at z in
    sym (wrap_of_IsInt64 a h)
    ∙ ap wrap (sub_add_cancel a e l)
    ∙ sym (wrap-add_left (a -ℤ e -ℤ l) (e +ℤ l))
    ∙ rw figure (ap wrap (omega int_laws))

figure_added : (a e l : ℤ) → IsInt64 a → a ≡ add (add e (sub (sub a e) l)) l
unfolding add sub
figure_added a e l h = simp wrap_laws (sym (wrap_of_IsInt64 a h) ∙ ap wrap (omega int_laws))

fold_figure-balances :
    (s : Statements)
    → IsInt64 s.asset_total
    → (fold_figure s).asset_total ≡ add (fold_figure s).equity_total (fold_figure s).liability_total
unfolding fold_figure balancing_figure
fold_figure-balances s h = ground (
  arith,
  eqb_ℤ→eq (sub (sub s.asset_total s.equity_total) s.liability_total) (pos 0),
  figure_zero s.asset_total s.equity_total s.liability_total h,
  figure_added s.asset_total s.equity_total s.liability_total h,
)

-- Whatever the two trial balances, the total of the assets is the total of the equity, the computed
-- row included, plus the total of the liabilities.
pub asset_total-build_statements_period :
    (pl_tb bs_tb : List AccountBalance) (name : Namer)
    → let s = build_statements_period pl_tb bs_tb name in
      s.asset_total ≡ add s.equity_total s.liability_total
unfolding build_statements_period with_result
asset_total-build_statements_period pl_tb bs_tb name =
    fold_figure-balances
      (add_balance_rows name bs_tb (with_result (add_result_rows name pl_tb no_statements)))
      (asset_total-rows name bs_tb (with_result (add_result_rows name pl_tb no_statements))
        (rw (asset_total-result_rows name pl_tb no_statements) (omega arith)))

-- What the three totals of the income statement amount to.
abbrev outcome : Statements → Amount
outcome s = add (sub s.income_total s.expense_total) s.financial_total

outcome-row :
    (name : Namer) (r : AccountBalance) (c : AccountClass) (s : Statements)
    → outcome (add_result_row name r c s)
      ≡ (if is_result c then sub (outcome s) r.net else wrap (outcome s))
unfolding add_result_row is_result add sub neg
outcome-row name r class_income s = simp wrap_laws (ap wrap (omega int_laws))
outcome-row name r class_expense s = simp wrap_laws (ap wrap (omega int_laws))
outcome-row name r class_financial s = simp wrap_laws (ap wrap (omega int_laws))
outcome-row name r _ s = simp wrap_laws refl

sub_zero : (a b : ℤ) → add a b ≡ sub (add a b) (pos 0)
unfolding add sub
sub_zero a b = simp wrap_laws (ap wrap (omega int_laws))

sub-sub : (a x y : ℤ) → sub (sub a x) y ≡ sub a (add x y)
unfolding add sub
sub-sub a x y = simp wrap_laws (ap wrap (omega int_laws))

sub-wrap : (a y : ℤ) → sub (wrap a) y ≡ sub a y
unfolding sub
sub-wrap a y = simp wrap_laws refl

outcome-rows :
    (name : Namer) (tb : List AccountBalance) (s : Statements)
    → outcome (add_result_rows name tb s) ≡ sub (outcome s) (class_sum is_result tb)
unfolding add_result_rows
outcome-rows name [] s = sub_zero (sub s.income_total s.expense_total) s.financial_total
outcome-rows name (r ∷ tb) s = ground (
  arith,
  outcome-rows name tb (add_result_row name r r.class s),
  outcome-row name r r.class s,
  sub-sub (outcome s) r.net (class_sum is_result tb),
  sub-wrap (outcome s) (class_sum is_result tb),
)

result-balance_row :
    (name : Namer) (r : AccountBalance) (c : AccountClass) (s : Statements)
    → (add_balance_row name r c s).result ≡ s.result
unfolding add_balance_row
result-balance_row name r class_asset s = refl
result-balance_row name r class_equity_liability s = ground arith
result-balance_row name r _ s = refl

result-balance_rows :
    (name : Namer) (tb : List AccountBalance) (s : Statements)
    → (add_balance_rows name tb s).result ≡ s.result
unfolding add_balance_rows
result-balance_rows name [] s = refl
result-balance_rows name (r ∷ tb) s =
    result-balance_rows name tb (add_balance_row name r r.class s)
    ∙ result-balance_row name r r.class s

result-fold_figure : (s : Statements) → (fold_figure s).result ≡ s.result
unfolding fold_figure
result-fold_figure s = ground arith

-- The result of the income statement, income less expenses plus the financial net, is ResultOf the
-- trial balance of the period, whatever the other trial balance.
pub result-build_statements_period :
    (pl_tb bs_tb : List AccountBalance) (name : Namer)
    → (build_statements_period pl_tb bs_tb name).result ≡ result_of pl_tb
unfolding build_statements_period with_result wrap ◌+ℤ◌ ◌-ℤ◌
result-build_statements_period pl_tb bs_tb name =
    let s = with_result (add_result_rows name pl_tb no_statements) in
    result-fold_figure (add_balance_rows name bs_tb s)
    ∙ result-balance_rows name bs_tb s
    ∙ outcome-rows name pl_tb no_statements
    ∙ (unfold add sub neg in refl)
    ∙ sym (result_of-class_sum pl_tb)
