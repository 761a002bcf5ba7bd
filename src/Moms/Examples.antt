-- ===== src/Moms/Examples.antt =====
-- Concrete sales and purchases, from internal/moms, and the theorems at them.
use pare.Common.{bytes, ◌+◌, ◌*◌, ◌≤◌, ◌<◌, ◌≡◌, refl, arith}
use pare.Common.Int.{◌*ℤ◌, ◌+ℤ◌, ◌-ℤ◌, pos, negsuc, pos_part, neg_part}
use pare.Common.Int64.{wrap}
use pare.Ledger.Reports.{balances}
use pare.Ledger.Verification.Postable.{IsPostable}
use pare.Moms.{vat, report, rate25}
use pare.Moms.Rounding.{vat_nearest}
use pare.Moms.Purchase.{purchase_lines, payable, pd25, peu, pimp}
use pare.Moms.Purchase.Entry.{credited_on, purchase_lines-IsPostable}
use pare.Moms.Purchase.ReverseCharge.{books, report-reverse_charge}

rounded :
    (vat (pos 10) (pos 25) ≡ pos 3)
    × (vat (negsuc 9) (pos 25) ≡ negsuc 2)
    × (vat (pos 1) (pos 6) ≡ pos 0)
unfolding vat wrap ◌*ℤ◌ ◌+ℤ◌ ◌-ℤ◌
rounded = (refl, refl, refl)

vat_nearest_example :
    (pos_part (vat (pos 1234567) (pos 25)) * 100 ≤ 1234567 * 25 + 50)
    × (1234567 * 25 < pos_part (vat (pos 1234567) (pos 25)) * 100 + 50)
    × (neg_part (vat (pos 1234567) (pos 25)) * 100 ≤ 0 * 25 + 50)
    × (0 * 25 < neg_part (vat (pos 1234567) (pos 25)) * 100 + 50)
vat_nearest_example = vat_nearest (pos 1234567) 25 (omega arith, omega arith)

purchase_lines-IsPostable_example :
    IsPostable (purchase_lines (bytes "4010") (pos 100000) pd25)
    × (credited_on (bytes "2440") (purchase_lines (bytes "4010") (pos 100000) pd25)
        ≡ pos_part (payable (pos 100000) pd25))
purchase_lines-IsPostable_example =
    purchase_lines-IsPostable (bytes "4010") 100000 pd25 (λ e. cc) (omega arith) (omega arith)

report-reverse_charge_example :
    let d = report (balances (books (bytes "5420") (pos 80000) peu)) in
    let i = report (balances (books (bytes "5420") (pos 80000) pimp)) in
    (d.box21 ≡ pos 80000)
    × (d.box30 ≡ vat (pos 80000) rate25)
    × (d.box48 ≡ vat (pos 80000) rate25)
    × (d.box49 ≡ pos 0)
    × (i.box22 ≡ pos 80000)
    × (i.box30 ≡ vat (pos 80000) rate25)
    × (i.box48 ≡ vat (pos 80000) rate25)
    × (i.box49 ≡ pos 0)
report-reverse_charge_example = report-reverse_charge (bytes "5420") (pos 80000) (omega arith)
