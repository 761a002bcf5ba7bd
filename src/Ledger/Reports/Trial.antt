-- ===== src/Ledger/Reports/Trial.antt =====
-- What each entry of Balances (internal/ledger/reports.go) is: the account's debits less credits.
use pare.Common.{
  Text, text_eq, text_eq_iff, List, [], ◌∷◌, ◌++◌, map, ◌≡◌, refl, sym, ap, ◌∙◌, arith,
  if◌then◌else◌, ℕ,
}
use mathlib.Core.List.{append-nil}
use pare.Common.Int.{ℤ, pos, int_laws}
use pare.Common.Int64.{
  IsInt64, add, sub, add_assoc, add_comm, add-IsInt64, add_zero, wrap, wrap_laws,
}
use pare.Ledger.Money.{Amount}
use pare.Ledger.Verification.{Line, Verification, swap_sides, reverse}
use pare.Ledger.Reports.{Balances, add_to, balance_of, balances_lines, balances_from, balances}

-- The lines of all the verifikat, in order.
abbrev pub lines_of : List Verification → List Line
lines_of [] = []
lines_of (v ∷ vs) = v.lines ++ lines_of vs

-- The debits of account `k` less its credits, as an int64.
abbrev pub net_on : Text → List Line → Amount
net_on k [] = pos 0
net_on k (l ∷ ls) =
    if text_eq l.account k then add (sub l.debit l.credit) (net_on k ls) else net_on k ls

pub balances_lines-append :
    (m : Balances) (a b : List Line)
    → balances_lines m (a ++ b) ≡ balances_lines (balances_lines m a) b
unfolding balances_lines
balances_lines-append m [] b = refl
balances_lines-append m (l ∷ a) b =
    balances_lines-append (add_to l.account (sub l.debit l.credit) m) a b

balances_from-lines_of :
    (m : Balances) (vs : List Verification) → balances_from m vs ≡ balances_lines m (lines_of vs)
unfolding balances_from balances_lines
balances_from-lines_of m [] = refl
balances_from-lines_of m (v ∷ vs) =
    balances_from-lines_of (balances_lines m v.lines) vs
    ∙ sym (balances_lines-append m v.lines (lines_of vs))

pub balances-lines_of : (vs : List Verification) → balances vs ≡ balances_lines [] (lines_of vs)
unfolding balances
balances-lines_of vs = balances_from-lines_of [] vs

balance_of-add_to :
    (k j : Text) (x : Amount) (m : Balances)
    → balance_of k (add_to j x m) ≡ (if text_eq j k then add (balance_of k m) x else balance_of k m)
unfolding balance_of add_to
balance_of-add_to k j x [] = ground arith
balance_of-add_to k j x ((i, n) ∷ m) =
    ground (arith, text_eq_iff i j, text_eq_iff i k, text_eq_iff j k, balance_of-add_to k j x m)

balance_of-balances_lines :
    (k : Text) (m : Balances) (ls : List Line)
    → IsInt64 (balance_of k m)
    → balance_of k (balances_lines m ls) ≡ add (balance_of k m) (net_on k ls)
unfolding balances_lines
balance_of-balances_lines k m [] h = sym (add_zero (balance_of k m) h)
balance_of-balances_lines k m (l ∷ ls) h = ground (
  arith,
  balance_of-add_to k l.account (sub l.debit l.credit) m,
  balance_of-balances_lines k (add_to l.account (sub l.debit l.credit) m) ls,
  add-IsInt64 (balance_of k m) (sub l.debit l.credit),
  add_assoc (balance_of k m) (sub l.debit l.credit) (net_on k ls),
)

net_on-IsInt64 : (k : Text) (ls : List Line) → IsInt64 (net_on k ls)
net_on-IsInt64 k [] = omega arith
net_on-IsInt64 k (l ∷ ls) =
    ground (arith, add-IsInt64 (sub l.debit l.credit) (net_on k ls), net_on-IsInt64 k ls)

-- The balance of every account, listed or not, is the int64 sum of debit less credit over the
-- lines of that account in all the verifikat.
pub balance_of-balances :
    (k : Text) (vs : List Verification) → balance_of k (balances vs) ≡ net_on k (lines_of vs)
unfolding balance_of
balance_of-balances k vs = rw balances-lines_of (
    balance_of-balances_lines k [] (lines_of vs) (omega arith)
    ∙ add_comm (pos 0) (net_on k (lines_of vs))
    ∙ add_zero (net_on k (lines_of vs)) (net_on-IsInt64 k (lines_of vs)))

net_on-append : (k : Text) (a b : List Line) → net_on k (a ++ b) ≡ add (net_on k a) (net_on k b)
net_on-append k [] b =
    sym (add_comm (pos 0) (net_on k b) ∙ add_zero (net_on k b) (net_on-IsInt64 k b))
net_on-append k (l ∷ a) b =
    ground (arith, net_on-append k a b, add_assoc (sub l.debit l.credit) (net_on k a) (net_on k b))

-- The two sides of a line and of its reversal cancel.
cancel_sides :
    (d c x y : Amount) → add x y ≡ pos 0 → add (add (sub d c) x) (add (sub c d) y) ≡ pos 0
unfolding add sub
cancel_sides d c x y h = simp wrap_laws ((ap wrap (omega int_laws)) ∙ h)

net_on-swap : (k : Text) (ls : List Line) → add (net_on k ls) (net_on k (map swap_sides ls)) ≡ pos 0
unfolding swap_sides
net_on-swap k [] = add_zero (pos 0) (omega arith)
net_on-swap k (l ∷ ls) = ground (
  arith,
  net_on-swap k ls,
  cancel_sides l.debit l.credit (net_on k ls) (net_on k (map swap_sides ls)),
)

-- After a verifikat and its correction the balance of every account is zero.
pub balance_of-reverse :
    (v : Verification) (series : Text) (number : ℤ) (date : ℕ) (reason k : Text)
    → balance_of k (balances (v ∷ reverse v series number date reason ∷ [])) ≡ pos 0
unfolding reverse
balance_of-reverse v series number date reason k =
    balance_of-balances k (v ∷ reverse v series number date reason ∷ [])
    ∙ net_on-append k v.lines (map swap_sides v.lines ++ [])
    ∙ rw append-nil (net_on-swap k v.lines)
