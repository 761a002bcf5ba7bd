-- ===== src/Ledger/Reports.antt =====
-- internal/ledger/reports.go: balances, the trial balance and the financial statements.
--
-- A Go map from accounts to amounts is an association list with one entry to an account. The order
-- in which Go ranges over it is not fixed; here it is the order of insertion, and Reports/Order
-- shows that no result depends on it.
pub mod Sums
pub mod Order
pub mod Trial
pub mod Balanced
pub mod Identity
pub mod OpenYear
pub mod Sorted
mod Examples
use pare.Common.{
  ℕ, ltb, leb, Text, bytes, text_eq, has_prefix, Bool, true, false, not, ◌&&◌, List, [], ◌∷◌, ◌++◌,
  ◌==◌, if◌then◌else◌,
}
use pare.Common.Int.{ℤ, pos, eqb_ℤ}
use pare.Common.Int64.{add, sub, neg}
use pare.Ledger.Money.{Amount}
use pare.Ledger.Chart.{
  AccountClass, class_unknown, class_asset, class_equity_liability, class_income, class_expense,
  class_financial, classify, is_result,
}
use pare.Ledger.Verification.{Line, Verification}

-- map[string]Amount
abbrev pub Balances : Type 0
Balances = List (Text × Amount)

-- `m[account] += x`; a missing key reads as 0.
unfoldable pub add_to : Text → Amount → Balances → Balances
unfolding add
add_to k x [] = (k, add (pos 0) x) ∷ []
add_to k x ((j, n) ∷ m) = if text_eq j k then (j, add n x) ∷ m else (j, n) ∷ add_to k x m

-- `m[account]`
unfoldable pub balance_of : Text → Balances → Amount
balance_of k [] = pos 0
balance_of k ((j, n) ∷ m) = if text_eq j k then n else balance_of k m

-- The inner loop of Balances, over the lines of a verifikat.
unfoldable pub balances_lines : Balances → List Line → Balances
unfolding add_to sub
balances_lines m [] = m
balances_lines m (l ∷ ls) = balances_lines (add_to l.account (sub l.debit l.credit) m) ls

-- The outer loop of Balances.
unfoldable pub balances_from : Balances → List Verification → Balances
unfolding balances_lines
balances_from m [] = m
balances_from m (v ∷ vs) = balances_from (balances_lines m v.lines) vs

unfoldable pub balances : List Verification → Balances
unfolding balances_from
balances vs = balances_from [] vs

pub record AccountBalance : Type 0 where
  pub account : Text
  pub class : AccountClass
  pub net : Amount

-- `a < b` on strings, byte by byte.
unfoldable pub text_lt : Text → Text → Bool
text_lt s [] = false
text_lt [] (_ ∷ _) = true
text_lt (a ∷ s) (b ∷ t) = if ltb a b then true else a == b && text_lt s t

-- sort.Slice by account, for rows of different accounts.
unfoldable pub insert_row : AccountBalance → List AccountBalance → List AccountBalance
unfolding text_lt
insert_row r [] = r ∷ []
insert_row r (k ∷ rows) =
    if text_lt k.account r.account then k ∷ insert_row r rows else r ∷ k ∷ rows

unfoldable pub sort_rows : List AccountBalance → List AccountBalance
unfolding insert_row
sort_rows [] = []
sort_rows (r ∷ rows) = insert_row r (sort_rows rows)

-- The loop of TrialBalance over the map.
unfoldable pub rows_of : Balances → List AccountBalance
unfolding classify
rows_of [] = []
rows_of ((acc, n) ∷ m) = record { account = acc; class = classify acc; net = n } ∷ rows_of m

unfoldable pub trial_balance : List Verification → List AccountBalance
unfolding balances rows_of sort_rows
trial_balance vs = sort_rows (rows_of (balances vs))

-- The loop of Result over the map, from the sum so far.
unfoldable pub result_from : Amount → Balances → Amount
unfolding classify is_result add
result_from net [] = net
result_from net ((acc, bal) ∷ m) =
    result_from (if is_result (classify acc) then add net bal else net) m

unfoldable pub result : List Verification → Amount
unfolding result_from balances neg
result vs = neg (result_from (pos 0) (balances vs))

-- The loop of ResultOf.
unfoldable pub result_of_from : Amount → List AccountBalance → Amount
unfolding is_result add
result_of_from net [] = net
result_of_from net (r ∷ tb) = result_of_from (if is_result r.class then add net r.net else net) tb

unfoldable pub result_of : List AccountBalance → Amount
unfolding result_of_from neg
result_of tb = neg (result_of_from (pos 0) tb)

pub record StatementRow : Type 0 where
  pub account : Text
  pub name : Text
  pub class : AccountClass
  pub amount : Amount

pub record Statements : Type 0 where
  pub income : List StatementRow
  pub expenses : List StatementRow
  pub financial : List StatementRow
  pub income_total : Amount
  pub expense_total : Amount
  pub financial_total : Amount
  pub result : Amount
  pub assets : List StatementRow
  pub equity : List StatementRow
  pub liabilities : List StatementRow
  pub asset_total : Amount
  pub equity_total : Amount
  pub liability_total : Amount

-- `var s Statements`
abbrev pub no_statements : Statements
no_statements = record {
  income = [];
  expenses = [];
  financial = [];
  income_total = pos 0;
  expense_total = pos 0;
  financial_total = pos 0;
  result = pos 0;
  assets = [];
  equity = [];
  liabilities = [];
  asset_total = pos 0;
  equity_total = pos 0;
  liability_total = pos 0;
}

-- nameFn; a nil nameFn is the function that returns "".
abbrev pub Namer : Type 0
Namer = Text → Text

abbrev row_of : Namer → AccountBalance → Amount → StatementRow
row_of name r x = record { account = r.account; name = name r.account; class = r.class; amount = x }

-- One round of the loop over plTB.
unfoldable pub add_result_row : Namer → AccountBalance → AccountClass → Statements → Statements
unfolding add neg
add_result_row name r class_income s = record s {
  income = s.income ++ row_of name r (neg r.net) ∷ [];
  income_total = add s.income_total (neg r.net);
}
add_result_row name r class_expense s = record s {
  expenses = s.expenses ++ row_of name r r.net ∷ [];
  expense_total = add s.expense_total r.net;
}
add_result_row name r class_financial s = record s {
  financial = s.financial ++ row_of name r (neg r.net) ∷ [];
  financial_total = add s.financial_total (neg r.net);
}
add_result_row name r _ s = s

unfoldable pub add_result_rows : Namer → List AccountBalance → Statements → Statements
unfolding add_result_row
add_result_rows name [] s = s
add_result_rows name (r ∷ tb) s = add_result_rows name tb (add_result_row name r r.class s)

-- One round of the loop over bsTB; accounts that begin with "20" are equity.
unfoldable pub add_balance_row : Namer → AccountBalance → AccountClass → Statements → Statements
unfolding add neg
add_balance_row name r class_asset s = record s {
  assets = s.assets ++ row_of name r r.net ∷ [];
  asset_total = add s.asset_total r.net;
}
add_balance_row name r class_equity_liability s =
    if has_prefix r.account (bytes "20")
    then record s {
      equity = s.equity ++ row_of name r (neg r.net) ∷ [];
      equity_total = add s.equity_total (neg r.net);
    }
    else record s {
      liabilities = s.liabilities ++ row_of name r (neg r.net) ∷ [];
      liability_total = add s.liability_total (neg r.net);
    }
add_balance_row name r _ s = s

unfoldable pub add_balance_rows : Namer → List AccountBalance → Statements → Statements
unfolding add_balance_row
add_balance_rows name [] s = s
add_balance_rows name (r ∷ tb) s = add_balance_rows name tb (add_balance_row name r r.class s)

-- The figure of the row "Årets resultat (beräknat)".
unfoldable pub balancing_figure : Statements → Amount
unfolding sub
balancing_figure s = sub (sub s.asset_total s.equity_total) s.liability_total

-- The last step: a figure other than 0 becomes a row of the equity.
unfoldable pub fold_figure : Statements → Statements
unfolding balancing_figure add
fold_figure s = if eqb_ℤ (balancing_figure s) (pos 0) then s else record s {
  equity =
      s.equity
      ++ record {
        account = [];
        name = bytes "Årets resultat (beräknat)";
        class = class_equity_liability;
        amount = balancing_figure s;
      }
        ∷ [];
  equity_total = add s.equity_total (balancing_figure s);
}

unfoldable pub with_result : Statements → Statements
unfolding add sub
with_result s = record s { result = add (sub s.income_total s.expense_total) s.financial_total }

unfoldable pub build_statements_period :
    List AccountBalance → List AccountBalance → Namer → Statements
unfolding with_result add_result_rows add_balance_rows fold_figure
build_statements_period pl_tb bs_tb name =
    fold_figure
      (add_balance_rows name bs_tb (with_result (add_result_rows name pl_tb no_statements)))

unfoldable pub build_statements : List AccountBalance → Namer → Statements
unfolding build_statements_period
build_statements tb name = build_statements_period tb tb name
