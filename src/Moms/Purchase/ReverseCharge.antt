-- ===== src/Moms/Purchase/ReverseCharge.antt =====
-- What the momsdeklaration (Report of internal/moms/moms.go) shows of a reverse-charge purchase.
use pare.Common.{Text, bytes, ◌≡◌, List, [], ◌∷◌, arith, ◌∙◌, ap}
use pare.Common.Int.{pos, int_laws}
use pare.Common.Int64.{add, sub, neg, IsInt64, wrap, wrap_laws, wrap_of_IsInt64}
use pare.Moms.Rounding.{vat-IsInt64}
use pare.Ledger.Money.{Amount}
use pare.Ledger.Verification.{Verification}
use pare.Ledger.Reports.{balances}
use pare.Moms.{rate25, vat, report}
use pare.Moms.Purchase.{PurchaseCode, peu, pimp, purchase_lines}

-- The books with one verifikat of such a purchase alone.
abbrev pub books : Text → Amount → PurchaseCode → List Verification
books cost_account net code =
    record {
      series = bytes "L";
      number = pos 1;
      date = 0;
      description = [];
      lines = purchase_lines cost_account net code;
      reversal_of = [];
    }
    ∷ []

-- The figures of the boxes, as Report computes them.
debit_alone : (net : Amount) → IsInt64 net → add (pos 0) (sub net (pos 0)) ≡ net
unfolding add sub
debit_alone net h = simp wrap_laws ((ap wrap (omega int_laws)) ∙ wrap_of_IsInt64 net h)

output_alone : (v : Amount) → IsInt64 v → add (neg (add (pos 0) (sub (pos 0) v))) (neg (pos 0)) ≡ v
unfolding add sub neg
output_alone v h = simp wrap_laws ((ap wrap (omega int_laws)) ∙ wrap_of_IsInt64 v h)

input_alone : (v : Amount) → IsInt64 v → add (add (pos 0) (pos 0)) (add (pos 0) (sub v (pos 0))) ≡ v
unfolding add sub
input_alone v h = simp wrap_laws ((ap wrap (omega int_laws)) ∙ wrap_of_IsInt64 v h)

nothing_due :
    (v : Amount)
    → let zero_box = neg (pos 0) in
      sub
        (add
          (add
            (add
              (add (add zero_box zero_box) zero_box)
              (add (neg (add (pos 0) (sub (pos 0) v))) zero_box))
            (pos 0))
          (pos 0))
        (add (add (pos 0) (pos 0)) (add (pos 0) (sub v (pos 0))))
      ≡ pos 0
unfolding add sub neg
nothing_due v = simp wrap_laws ((ap wrap (omega int_laws)) ∙ wrap_of_IsInt64 (pos 0) (omega arith))

-- For services bought in the EU on reverse charge, the net stands in box 21, the VAT both in box 30
-- and in box 48, and nothing is to pay; the same holds outside the EU with box 22.
pub report-reverse_charge :
    (cost_account : Text) (net : Amount)
    → IsInt64 net
    → let d = report (balances (books cost_account net peu)) in
      let i = report (balances (books cost_account net pimp)) in
      (d.box21 ≡ net)
      × (d.box30 ≡ vat net rate25)
      × (d.box48 ≡ vat net rate25)
      × (d.box49 ≡ pos 0)
      × (i.box22 ≡ net)
      × (i.box30 ≡ vat net rate25)
      × (i.box48 ≡ vat net rate25)
      × (i.box49 ≡ pos 0)
unfolding report purchase_lines balances
report-reverse_charge cost_account net h =
    let v = vat net rate25 in
    let hv = vat-IsInt64 net rate25 in
    let b21 = debit_alone net h in
    let b30 = output_alone v hv in
    let b48 = input_alone v hv in
    let b49 = nothing_due v in (b21, b30, b48, b49, b21, b30, b48, b49)
