-- ===== src/Store/Requests/Shown.antt =====
-- What internal/store shows of an invoice, and the theorems about it.
use pare.Common.{
  arith, text_eq, some, ◌⊎◌, ◌≡◌, refl, Text, bytes, false, none, List, [], ◌∷◌, ◌++◌, All,
}
use pare.Common.Int.{pos, ◌+ℤ◌, ◌-ℤ◌, ◌*ℤ◌}
use pare.Common.Int64.{add, wrap}
use pare.Invoice.{gross_sek}
use pare.Store.{Company, Db, Outcome, failed, payment_mismatch, find_row, done, no_profile}
use pare.Store.Act.{transaction}
use pare.Store.Payment.{Settlement, settlement}
use pare.Store.Invoices.{has_invoice_id}
use pare.Store.Act.Steps.{up}
use pare.Store.Counterparty.{Counterparty}
use pare.Store.Invoices.Payments.{total_sek_for_render, settle, record_payment}
use pare.Store.Invoices.Payments.Refused.{IsRefused, record_payment-IsRefused}
use pare.Store.Views.{
  InvoiceView, InvoiceSummary, sums_from, no_sums, view_of, summary_of, invoice_for_render,
  list_invoice_summaries, match_open_invoices,
}
use pare.Store.Views.Breakout.{nets, vats, invoice_for_render-IsBrokenOut}
use pare.Store.Views.Matching.{IsSelected, IsInRange, IsExact, IsNear, match_open_invoices_lem}
use pare.Store.Examples.{company}
use pare.Store.Requests.{env, received, billed}

abbrev seller : Company
seller = record {
  id = company;
  dek_wrapped = bytes "nonce-nonce-fedcba9876543210fedcba9876543210";
  locked_through = none;
  profile = no_profile;
}

abbrev customer : Counterparty
customer = record {
  id = bytes "k1";
  kind = bytes "customer";
  name = [];
  org_nr = [];
  personnummer = [];
  address = [];
  iban = [];
  email = [];
  erased = false;
}

abbrev same : Text → Text
same s = s

abbrev printed : InvoiceView
printed = view_of env same received billed seller customer (sums_from no_sums billed.lines)

invoice_is_printed : invoice_for_render env same company (bytes "i1") received ≡ done printed
unfolding invoice_for_render wrap ◌+ℤ◌ ◌-ℤ◌ ◌*ℤ◌
invoice_is_printed = refl

invoice_for_render-IsBrokenOut_example :
    (nets printed.vat_summary ≡ printed.net)
    × (vats printed.vat_summary ≡ printed.vat)
    × (printed.total ≡ add (nets printed.vat_summary) (vats printed.vat_summary))
    × (total_sek_for_render env none up company (bytes "i1") received ≡ done printed.total_sek)
invoice_for_render-IsBrokenOut_example =
    invoice_for_render-IsBrokenOut env same company (bytes "i1") received printed none up
      invoice_is_printed

abbrev listed : List InvoiceSummary
listed = summary_of env same 200 billed printed ∷ []

invoices_are_listed : list_invoice_summaries env same 200 company received ≡ done listed
unfolding list_invoice_summaries wrap ◌+ℤ◌ ◌-ℤ◌ ◌*ℤ◌
invoices_are_listed = refl

listed-IsInRange : All IsInRange listed
unfolding gross_sek wrap ◌+ℤ◌ ◌-ℤ◌ ◌*ℤ◌
listed-IsInRange = omega arith

-- A payment of 599,50 kr finds the invoice on which 600 kr are left.
match_open_invoices_lem_example :
    (exact near : List InvoiceSummary) × (match_open_invoices env same 200 company
        (pos 59950)
        received
      ≡ done (exact ++ near))
    × IsSelected (IsExact (pos 59950)) listed exact
    × IsSelected (IsNear (pos 59950)) listed near
match_open_invoices_lem_example =
    match_open_invoices_lem env same 200 company (pos 59950) received listed (omega arith)
      listed-IsInRange invoices_are_listed

received_total : total_sek_for_render env none up company (bytes "i1") received ≡ done (pos 100000)
unfolding total_sek_for_render wrap ◌+ℤ◌ ◌-ℤ◌ ◌*ℤ◌
received_total = refl

received_invoice : find_row (has_invoice_id (bytes "i1")) received.invoices ≡ some billed
unfolding text_eq
received_invoice = refl

abbrev overpaid : Outcome Text × Db
overpaid =
    record_payment env none up (bytes "v1") company (bytes "i1") 110 (bytes "1930") (pos 60100)
      received

-- 601 kr, where 600 kr are left.
record_payment-IsRefused_example :
    (IsRefused 100000 40000 (pos 60100) × (overpaid ≡ (failed payment_mismatch, received)))
    ⊎ ((¬ IsRefused 100000 40000 (pos 60100))
        × (s : Settlement) × (settlement company billed (bytes "1930") (pos 100000) (pos 60100)
            ≡ done s)
        × (overpaid
            ≡ transaction up
                (settle env none up (bytes "v1") company billed 110 (pos 60100) s)
                received))
record_payment-IsRefused_example =
    record_payment-IsRefused env none up (bytes "v1") company (bytes "i1") 110 (bytes "1930")
      (pos 60100) billed received received_invoice 40000 100000 refl refl refl refl received_total
      (omega arith) (omega arith)
