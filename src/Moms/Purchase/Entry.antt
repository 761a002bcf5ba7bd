-- ===== src/Moms/Purchase/Entry.antt =====
-- The verifikat of a supplier cost (internal/moms/purchase.go) can be posted.
use pare.Common.{
  Bool, true, false, if◌then◌else◌, ℕ, ◌+◌, ◌*◌, ◌≤◌, ◌<◌, ◌^◌, ◌≡◌, ◌≢◌, Text, bytes, text_eq,
  none, some, List, [], ◌∷◌, arith, inl, inr, ◌⊎◌, ◌/◌, Bool-cases, refl, ◌||◌,
}
use pare.Common.Int.{pos, pos_part, eq_of_parts}
use pare.Common.Int64.{add_fits}
use pare.Ledger.Money.{Amount}
use pare.Ledger.Verification.{Line, validate_lines, line_side}
use pare.Ledger.Verification.Postable.{IsOneSided, IsPostable}
use pare.Moms.{Rate, vat}
use pare.Moms.Rounding.{vat_parts}
use pare.Moms.Purchase.{
  PurchaseCode, domestic_rate, purchase_lines, domestic_lines, reverse_charge_lines, payable, pd25,
  pd12, pd06, peu, pimp, debit_line, credit_line,
}

-- A purchase code deducts at 25, 12 or 6 percent, or not at all.
domestic_rate-cases :
    (code : PurchaseCode)
    → (domestic_rate code ≡ none)
      ⊎ ((r : ℕ) × (domestic_rate code ≡ some (pos r)) × (6 ≤ r) × (r ≤ 25))
unfolding domestic_rate
domestic_rate-cases code = elim (Bool-cases (text_eq code pd25)) [
  | inl e ↦ inr (25, ground arith, omega arith, omega arith)
  | inr n25 ↦ elim (Bool-cases (text_eq code pd12)) [
    | inl e ↦ inr (12, ground arith, omega arith, omega arith)
    | inr n12 ↦ elim (Bool-cases (text_eq code pd06)) [
      | inl e ↦ inr (6, ground arith, omega arith, omega arith)
      | inr n06 ↦ inl (ground arith)
    ]
  ]
]

vat_pos : (net r : ℕ) → net * r + 50 < 2 ^ 63 → vat (pos net) (pos r) ≡ pos ((net * r + 50) / 100)
vat_pos net r h =
    eq_of_parts (vat (pos net) (pos r)) (pos ((net * r + 50) / 100))
      (omega (arith, vat_parts (pos net) r (h, omega arith)))

-- The VAT on 9 öre or more is above zero at every rate, and is less than the net.
vat_bounds :
    (net r : ℕ)
    → 9 ≤ net
    → net < 2 ^ 57
    → 6 ≤ r
    → r ≤ 25
    → (net * r + 50 < 2 ^ 63) × (0 < (net * r + 50) / 100) × ((net * r + 50) / 100 ≤ net)
vat_bounds net r h k l m =
    let lower : net * 6 ≤ net * r = grind arith in
    let upper : net * r ≤ net * 25 = grind arith in omega arith

line_of :
    (a : Text)
    → a ≢ []
    → (x : ℕ) → 0 < x
    → IsOneSided (debit_line a (pos x)) × IsOneSided (credit_line a (pos x))
line_of a h x p = ((h, inr (refl, p)), (h, inl (refl, p)))

domestic_lines-IsPostable :
    (cost_account : Text) (net v : ℕ)
    → cost_account ≢ []
    → 0 < net
    → 0 < v
    → net + v < 2 ^ 63
    → IsPostable (domestic_lines cost_account (pos net) (pos v))
domestic_lines-IsPostable cost_account net v a h k b =
    rw (add_fits net (pos v) refl b) (ground arith)

reverse_charge_lines-IsPostable :
    (acct : Text) (net v : ℕ)
    → acct ≢ []
    → 0 < net
    → 0 < v
    → net + v < 2 ^ 63
    → IsPostable (reverse_charge_lines acct (pos net) (pos v))
reverse_charge_lines-IsPostable acct net v a h k b = ground arith

-- What the lines credit to an account.
abbrev pub credited_on : Text → List Line → ℕ
credited_on a [] = 0
credited_on a (l ∷ ls) =
    if text_eq l.account a then pos_part l.credit + credited_on a ls else credited_on a ls

none_lines-IsPostable :
    (cost_account : Text) (net : ℕ)
    → cost_account ≢ []
    → 0 < net
    → net < 2 ^ 63
    → IsPostable (debit_line cost_account (pos net) ∷ credit_line (bytes "2440") (pos net) ∷ [])
none_lines-IsPostable cost_account net a h b = ground arith

abbrev IsBooked : Amount → List Line → Type 0
IsBooked owed ls = IsPostable ls × (credited_on (bytes "2440") ls ≡ pos_part owed)

domestic_IsBooked :
    (cost_account : Text) (net r : ℕ) (code : PurchaseCode)
    → cost_account ≢ []
    → 9 ≤ net
    → net < 2 ^ 57
    → domestic_rate code ≡ some (pos r)
    → 6 ≤ r
    → r ≤ 25
    → IsBooked (payable (pos net) code) (purchase_lines cost_account (pos net) code)
unfolding text_eq purchase_lines payable
domestic_IsBooked cost_account net r code a h k e l m =
    let v = (net * r + 50) / 100 in
    let (fits, above, below) = vat_bounds net r h k l m in
    let ok = domestic_lines-IsPostable cost_account net v a (omega arith) above (omega arith) in
    rw (purchase_lines, payable, e, vat_pos net r fits) (ok, ground arith)

reverse_charge_IsBooked :
    (acct : Text) (net v : ℕ)
    → acct ≢ []
    → 0 < net
    → 0 < v
    → net + v < 2 ^ 63
    → IsBooked (pos net) (reverse_charge_lines acct (pos net) (pos v))
unfolding text_eq
reverse_charge_IsBooked acct net v a h k b =
    (reverse_charge_lines-IsPostable acct net v a h k b, ground arith)

acct-ne-nil : (b : Bool) → (if b then bytes "4531" else bytes "4535") ≢ []
acct-ne-nil true e = cc
acct-ne-nil false e = cc

foreign_IsBooked :
    (cost_account : Text) (net : ℕ) (code : PurchaseCode)
    → cost_account ≢ []
    → 9 ≤ net
    → net < 2 ^ 57
    → domestic_rate code ≡ none
    → IsBooked (payable (pos net) code) (purchase_lines cost_account (pos net) code)
unfolding purchase_lines payable text_eq
foreign_IsBooked cost_account net code a h k e =
    let v = (net * 25 + 50) / 100 in
    let (fits, above, below) = vat_bounds net 25 h k (omega arith) (omega arith) in
    elim (Bool-cases (text_eq code peu || text_eq code pimp)) [
      | inl b ↦
          rw (purchase_lines, payable, e, b, vat_pos net 25 fits)
            (reverse_charge_IsBooked (if text_eq code pimp then bytes "4531" else bytes "4535") net
              v (acct-ne-nil (text_eq code pimp)) (omega arith) above (omega arith))
      | inr b ↦
          rw (purchase_lines, payable, e, b)
            (none_lines-IsPostable cost_account net a (omega arith) (omega arith), ground arith)
    ]

-- Any supplier cost of 9 öre up to 2 ^ 57 öre on a named account, under any VAT treatment, known or
-- not, gives lines that can be posted, with what is owed to the supplier credited to 2440.
pub purchase_lines-IsPostable :
    (cost_account : Text) (net : ℕ) (code : PurchaseCode)
    → cost_account ≢ []
    → 9 ≤ net
    → net < 2 ^ 57
    → IsPostable (purchase_lines cost_account (pos net) code)
      × (credited_on (bytes "2440") (purchase_lines cost_account (pos net) code)
          ≡ pos_part (payable (pos net) code))
purchase_lines-IsPostable cost_account net code a h k = elim (domestic_rate-cases code) [
  | inr (r, e, l, m) ↦ domestic_IsBooked cost_account net r code a h k e l m
  | inl e ↦ foreign_IsBooked cost_account net code a h k e
]

-- A purchase with Swedish VAT so small that the VAT rounds to zero gives a line of zero, and Validate
-- refuses it.
pub purchase_lines-line_side :
    (cost_account : Text) (net : ℕ) (code : PurchaseCode) {r : Rate}
    → cost_account ≢ []
    → 0 < net
    → net < 2 ^ 57
    → domestic_rate code ≡ some r
    → vat (pos net) r ≡ pos 0
    → validate_lines (purchase_lines cost_account (pos net) code) ≡ some line_side
unfolding purchase_lines validate_lines text_eq
purchase_lines-line_side cost_account net code a h k e z =
    let start = add_fits 0 (pos net) refl (omega arith) in
    ground (arith, add_fits 0 (pos net), add_fits 0 (pos 0))
