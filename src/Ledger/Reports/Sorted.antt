-- ===== src/Ledger/Reports/Sorted.antt =====
-- TrialBalance (internal/ledger/reports.go) lists each account once, in the order of the accounts.
use pare.Common.{
  Text, text_eq_iff, true, false, List, [], ◌∷◌, ◌≡◌, ◌≢◌, refl, arith, All, Bool-cases, inl, inr,
}
use pare.Common.Int64.{sub}
use pare.Ledger.Money.{Amount}
use pare.Ledger.Verification.{Line, Verification}
use pare.Ledger.Reports.{
  Balances, add_to, balances_lines, balances_from, balances, AccountBalance, text_lt, insert_row,
  sort_rows, rows_of, trial_balance,
}

text_lt_trans : (s t u : Text) → text_lt s t ≡ true → text_lt t u ≡ true → text_lt s u ≡ true
unfolding text_lt
text_lt_trans s t [] h k = ground arith
text_lt_trans s [] (c ∷ u) h k = ground arith
text_lt_trans [] (b ∷ t) (c ∷ u) h k = refl
text_lt_trans (a ∷ s) (b ∷ t) (c ∷ u) h k = ground (arith, text_lt_trans s t u)

text_lt_total : (s t : Text) → s ≢ t → text_lt s t ≡ false → text_lt t s ≡ true
unfolding text_lt
text_lt_total [] [] n h = absurd (n refl)
text_lt_total [] (b ∷ t) n h = cc
text_lt_total (a ∷ s) [] n h = refl
text_lt_total (a ∷ s) (b ∷ t) n h = ground (arith, text_lt_total s t)

-- Each row's account comes before those of all later rows.
abbrev pub IsAscending : List AccountBalance → Type 0
IsAscending [] = Unit
IsAscending (r ∷ tb) = All (λ k. text_lt r.account k.account ≡ true) tb × IsAscending tb

abbrev Misses : Text → Balances → Type 0
Misses k = All (λ e. e.0 ≢ k)

abbrev HasDistinctKeys : Balances → Type 0
HasDistinctKeys [] = Unit
HasDistinctKeys ((k, _) ∷ m) = Misses k m × HasDistinctKeys m

Misses-add_to :
    (k j : Text) (x : Amount) (m : Balances) → Misses k m → j ≢ k → Misses k (add_to j x m)
unfolding add_to
Misses-add_to k j x [] h n = (n, tt)
Misses-add_to k j x ((i, y) ∷ m) h n = ground (arith, Misses-add_to k j x m)

HasDistinctKeys-add_to :
    (j : Text) (x : Amount) (m : Balances) → HasDistinctKeys m → HasDistinctKeys (add_to j x m)
unfolding add_to
HasDistinctKeys-add_to j x [] h = (tt, tt)
HasDistinctKeys-add_to j x ((i, y) ∷ m) h =
    ground (arith, text_eq_iff i j, Misses-add_to i j x m, HasDistinctKeys-add_to j x m)

HasDistinctKeys-lines :
    (m : Balances) (ls : List Line) → HasDistinctKeys m → HasDistinctKeys (balances_lines m ls)
unfolding balances_lines
HasDistinctKeys-lines m [] h = h
HasDistinctKeys-lines m (l ∷ ls) h =
    HasDistinctKeys-lines (add_to l.account (sub l.debit l.credit) m) ls
      (HasDistinctKeys-add_to l.account (sub l.debit l.credit) m h)

HasDistinctKeys-from :
    (m : Balances) (vs : List Verification)
    → HasDistinctKeys m
    → HasDistinctKeys (balances_from m vs)
unfolding balances_from
HasDistinctKeys-from m [] h = h
HasDistinctKeys-from m (v ∷ vs) h =
    HasDistinctKeys-from (balances_lines m v.lines) vs (HasDistinctKeys-lines m v.lines h)

All-insert_row :
    (P : AccountBalance → Type 0) (r : AccountBalance) (tb : List AccountBalance)
    → P r
    → All P tb
    → All P (insert_row r tb)
unfolding insert_row
All-insert_row P r [] p h = (p, tt)
All-insert_row P r (k ∷ tb) p h = elim (Bool-cases (text_lt k.account r.account)) [
  | inl e ↦ rw e (h.0, All-insert_row P r tb p h.1)
  | inr e ↦ rw e (p, h)
]

All-sort_rows :
    (P : AccountBalance → Type 0) (tb : List AccountBalance) → All P tb → All P (sort_rows tb)
unfolding sort_rows
All-sort_rows P [] h = tt
All-sort_rows P (r ∷ tb) h = All-insert_row P r (sort_rows tb) h.0 (All-sort_rows P tb h.1)

abbrev IsOther : Text → AccountBalance → Type 0
IsOther k r = r.account ≢ k

before-All :
    (s t : Text) (tb : List AccountBalance)
    → text_lt s t ≡ true
    → All (λ k. text_lt t k.account ≡ true) tb
    → All (λ k. text_lt s k.account ≡ true) tb
before-All s t [] h a = tt
before-All s t (k ∷ tb) h a = (text_lt_trans s t k.account h a.0, before-All s t tb h a.1)

IsAscending-insert_row :
    (r : AccountBalance) (tb : List AccountBalance)
    → All (IsOther r.account) tb
    → IsAscending tb
    → IsAscending (insert_row r tb)
unfolding insert_row
IsAscending-insert_row r [] n h = (tt, tt)
IsAscending-insert_row r (k ∷ tb) n h = elim (Bool-cases (text_lt k.account r.account)) [
  | inl e ↦ rw e (
    All-insert_row (λ i. text_lt k.account i.account ≡ true) r tb e h.0,
    IsAscending-insert_row r tb n.1 h.1,
  )
  | inr e ↦
      let lt = text_lt_total k.account r.account n.0 e in
      rw e ((lt, before-All r.account k.account tb lt h.0), h)
]

others-rows_of : (k : Text) (m : Balances) → Misses k m → All (IsOther k) (rows_of m)
unfolding rows_of
others-rows_of k [] h = tt
others-rows_of k (e ∷ m) h = (h.0, others-rows_of k m h.1)

IsAscending-sort_rows : (m : Balances) → HasDistinctKeys m → IsAscending (sort_rows (rows_of m))
unfolding sort_rows rows_of
IsAscending-sort_rows [] h = tt
IsAscending-sort_rows ((k, n) ∷ m) h =
    IsAscending-insert_row _ (sort_rows (rows_of m))
      (All-sort_rows (IsOther k) (rows_of m) (others-rows_of k m h.0)) (IsAscending-sort_rows m h.1)

-- The rows of the trial balance stand in strictly ascending order of their accounts, so no account
-- has two rows.
pub trial_balance-IsAscending : (vs : List Verification) → IsAscending (trial_balance vs)
unfolding trial_balance balances
trial_balance-IsAscending vs =
    IsAscending-sort_rows (balances_from [] vs) (HasDistinctKeys-from [] vs tt)
