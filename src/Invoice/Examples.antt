-- ===== src/Invoice/Examples.antt =====
-- A concrete invoice in euro, and the theorems of internal/invoice at it.
use pare.Common.{bytes, text_eq, ◌≡◌, refl, some, [], ◌∷◌}
use mathlib.Core.List.{head?}
use pare.Common.Int.{◌*ℤ◌, ◌+ℤ◌, pos}
use pare.Common.Int64.{wrap}
use pare.Ledger.Verification.{Verification, totals}
use pare.Moms.{se25, se12}
use pare.Invoice.{Line, line_net, Invoice, gross_sek, receivable, total, verification_lines}
use pare.Invoice.Balance.{totals-verification_lines}
use pare.Invoice.Gross.{gross_sek-verification_lines}

-- 2,5 hours at 999,99 and one item at 100,00, in a currency of 11,25 kr.
abbrev hours : Line
hours = record {
  description = bytes "Konsultation";
  quantity_milli = pos 2500;
  unit_price_ore = pos 99999;
  vat_code = se25;
}

abbrev item : Line
item = record {
  description = bytes "Bok";
  quantity_milli = pos 1000;
  unit_price_ore = pos 10000;
  vat_code = se12;
}

abbrev two_items : Invoice
two_items = record {
  number = bytes "F1";
  date = 0;
  due_date = 30;
  currency = bytes "EUR";
  rate_ppm = pos 11250000;
  lines = hours ∷ item ∷ [];
}

abbrev booked : Verification
booked = record {
  series = bytes "K";
  number = pos 1;
  date = 0;
  description = bytes "Kundfaktura";
  lines = verification_lines two_items;
  reversal_of = [];
}

amounts : (line_net hours ≡ pos 249998) × (total two_items ≡ pos 323698)
unfolding line_net total wrap text_eq ◌*ℤ◌ ◌+ℤ◌
amounts = (refl, refl)

totals-verification_lines_example : (totals booked).0 ≡ (totals booked).1
totals-verification_lines_example = totals-verification_lines two_items booked refl

gross_sek-verification_lines_example :
    head? (verification_lines two_items) ≡ some (receivable (gross_sek two_items))
unfolding text_eq
gross_sek-verification_lines_example = gross_sek-verification_lines two_items (refl, (refl, tt))
