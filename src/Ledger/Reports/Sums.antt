-- ===== src/Ledger/Reports/Sums.antt =====
-- Sums over the rows of internal/ledger/reports.go, for any choice of accounts.
use pare.Common.{Text, Bool, List, [], ◌∷◌, ◌≡◌, refl, ◌∙◌, arith, if◌then◌else◌, text_eq_iff}
use pare.Common.Int.{pos}
use pare.Common.Int64.{IsInt64, add, add_assoc, add_comm, add_left_comm, add-IsInt64, add_zero}
use pare.Ledger.Money.{Amount}
use pare.Ledger.Chart.{AccountClass, classify}
use pare.Ledger.Reports.{Balances, add_to, AccountBalance, insert_row, sort_rows, rows_of}

-- The sum of the entries whose account is chosen, as an int64.
abbrev pub chosen_sum : (Text → Bool) → Balances → Amount
chosen_sum p [] = pos 0
chosen_sum p ((k, n) ∷ m) = if p k then add n (chosen_sum p m) else chosen_sum p m

-- The sum of the rows whose class is chosen.
abbrev pub class_sum : (AccountClass → Bool) → List AccountBalance → Amount
class_sum p [] = pos 0
class_sum p (r ∷ tb) = if p r.class then add r.net (class_sum p tb) else class_sum p tb

pub chosen_sum-IsInt64 : (p : Text → Bool) (m : Balances) → IsInt64 (chosen_sum p m)
chosen_sum-IsInt64 p [] = omega arith
chosen_sum-IsInt64 p ((k, n) ∷ m) =
    ground (arith, add-IsInt64 n (chosen_sum p m), chosen_sum-IsInt64 p m)

pub class_sum-IsInt64 :
    (p : AccountClass → Bool) (tb : List AccountBalance) → IsInt64 (class_sum p tb)
class_sum-IsInt64 p [] = omega arith
class_sum-IsInt64 p (r ∷ tb) =
    ground (arith, add-IsInt64 r.net (class_sum p tb), class_sum-IsInt64 p tb)

-- An amount added to an account is added to every sum that the account belongs to.
pub chosen_sum-add_to :
    (p : Text → Bool) (k : Text) (x : Amount) (m : Balances)
    → chosen_sum p (add_to k x m) ≡ (if p k then add x (chosen_sum p m) else chosen_sum p m)
unfolding add_to
chosen_sum-add_to p k x [] =
    ground (arith, add_comm (pos 0) x, add_assoc x (pos 0) (pos 0), add_zero (pos 0) (omega arith))
chosen_sum-add_to p k x ((j, n) ∷ m) = ground (
  arith,
  text_eq_iff j k,
  chosen_sum-add_to p k x m,
  add_comm n x,
  add_assoc x n (chosen_sum p m),
  add_left_comm n x (chosen_sum p m),
)

pub class_sum-rows_of :
    (p : AccountClass → Bool) (m : Balances)
    → class_sum p (rows_of m) ≡ chosen_sum (λ k. p (classify k)) m
unfolding rows_of
class_sum-rows_of p [] = refl
class_sum-rows_of p ((k, n) ∷ m) = ground (arith, class_sum-rows_of p m)

class_sum-insert_row :
    (p : AccountClass → Bool) (r : AccountBalance) (tb : List AccountBalance)
    → class_sum p (insert_row r tb) ≡ class_sum p (r ∷ tb)
unfolding insert_row
class_sum-insert_row p r [] = refl
class_sum-insert_row p r (k ∷ tb) =
    ground (arith, class_sum-insert_row p r tb, add_left_comm r.net k.net (class_sum p tb))

pub class_sum-sort_rows :
    (p : AccountClass → Bool) (tb : List AccountBalance)
    → class_sum p (sort_rows tb) ≡ class_sum p tb
unfolding sort_rows
class_sum-sort_rows p [] = refl
class_sum-sort_rows p (r ∷ tb) =
    class_sum-insert_row p r (sort_rows tb) ∙ ground (arith, class_sum-sort_rows p tb)
