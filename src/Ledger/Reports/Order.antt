-- ===== src/Ledger/Reports/Order.antt =====
-- Sums over a Go map (internal/ledger/reports.go) do not depend on the order of the range.
use mathlib.Core.List.{Perm, Permᴰ}
use mathlib.Core.Logic.{∥∥₁_elim}
use mathlib.Core.HLevel.{hedberg}
use native.Mathlib.Decide.{ℕ_discrete}
use pare.Common.{Text, Bool, ◌≡◌, refl, ap, ◌∙◌, arith, if◌then◌else◌}
use pare.Common.Int.{ℤ}
use pare.Common.Int64.{add, add_assoc, add_comm}
use pare.Ledger.Money.{Amount}
use pare.Ledger.Chart.{classify, is_result}
use pare.Ledger.Reports.{Balances, result_from}

ℤ-discrete : Discrete ℤ
ℤ-discrete = hlevel ℕ_discrete

ℤ-set : IsSet ℤ
ℤ-set = hedberg ℤ-discrete

swap_adds : (n x y : Amount) → add (add n x) y ≡ add (add n y) x
swap_adds n x y = cc (add_assoc n x y, add_assoc n y x, add_comm x y)

abbrev counted : Text → Bool
counted acc = is_result (classify acc)

abbrev step : Amount → Text × Amount → Amount
step net (acc, bal) = if counted acc then add net bal else net

step_swap : (net : Amount) (e f : Text × Amount) → step (step net e) f ≡ step (step net f) e
step_swap net (a, x) (b, y) = ground (arith, swap_adds net x y)

result_from-permᴰ :
    {m m' : Balances} → Permᴰ m m' → (net : Amount) → result_from net m ≡ result_from net m'
unfolding result_from
result_from-permᴰ Permᴰ.nil net = refl
result_from-permᴰ (Permᴰ.cons {a} {b} {l₁} {l₂} e p) net =
    result_from-permᴰ p (step net a) ∙ ap (λ (x : Text × Amount). result_from (step net x) l₂) e
result_from-permᴰ (Permᴰ.swap {a} {b} {a'} {b'} {l} p q) net =
    ap (λ (n : Amount). result_from n l) (step_swap net a b) ∙ cc (p, q)
result_from-permᴰ (Permᴰ.trans p q) net = result_from-permᴰ p net ∙ result_from-permᴰ q net

-- The sum that Result forms over the map of balances is the same in every order of the range.
pub result_from-perm :
    (net : Amount) (m m' : Balances) → Perm m m' → result_from net m ≡ result_from net m'
result_from-perm net m m' p =
    ∥∥₁_elim p (ℤ-set (result_from net m) (result_from net m')) (λ d. result_from-permᴰ d net)
