-- ===== src/Store/Views/Breakout.antt =====
-- InvoiceForRender (internal/store/store_invoice.go): the sums printed on an invoice.
use mathlib.Core.Path.{subst}
use pare.Common.{
  ◌≡◌, refl, ap, sym, ◌∙◌, Text, text_eq, Bool-cases, Option-cases, true, inl, inr, Option, some,
  List, [], ◌∷◌, arith,
}
use pare.Common.Int.{pos}
use pare.Common.Int64.{add, add_comm, add_assoc}
use pare.Ledger.Money.{Amount}
use pare.Invoice.{Line, line_net, line_vat}
use pare.Store.{Db, Pool, Company, InvoiceRow, Outcome-cases, done, get_company, find_row}
use pare.Store.Env.{Env}
use pare.Store.Audit.{Actor}
use pare.Store.Counterparty.{Counterparty, get_counterparty}
use pare.Store.Invoices.{has_invoice_id}
use pare.Store.Invoices.Payments.{total_sek_for_render}
use pare.Store.Views.{
  Summary, VatSummaryRow, InvoiceView, Sums, summed, with_line, sums_from, no_sums, view_of,
  invoice_for_render,
}

-- The sum of a column of the summary.
abbrev pub column : (VatSummaryRow → Amount) → Summary → Amount
column f [] = pos 0
column f ((c, r) ∷ rows) = add (f r) (column f rows)

abbrev pub nets : Summary → Amount
nets = column (λ r. r.net)

abbrev pub vats : Summary → Amount
vats = column (λ r. r.vat)

module _ (l : Line) where
  nets-summed : (rows : Summary) → nets (summed l rows) ≡ add (nets rows) (line_net l)
  unfolding summed
  nets-summed [] = add_comm (line_net l) (pos 0)
  nets-summed ((c, r) ∷ rows) = elim (Bool-cases (text_eq c l.vat_code)) [
    | inl same ↦ rw same (
        add_assoc r.net (line_net l) (nets rows)
        ∙ ap (add r.net) (add_comm (line_net l) (nets rows))
        ∙ sym (add_assoc r.net (nets rows) (line_net l)))
    | inr other ↦ rw (other, nets-summed rows) (sym (add_assoc r.net (nets rows) (line_net l)))
  ]

  vats-summed : (rows : Summary) → vats (summed l rows) ≡ add (vats rows) (line_vat l)
  unfolding summed
  vats-summed [] = add_comm (line_vat l) (pos 0)
  vats-summed ((c, r) ∷ rows) = elim (Bool-cases (text_eq c l.vat_code)) [
    | inl same ↦ rw same (
        add_assoc r.vat (line_vat l) (vats rows)
        ∙ ap (add r.vat) (add_comm (line_vat l) (vats rows))
        ∙ sym (add_assoc r.vat (vats rows) (line_vat l)))
    | inr other ↦ rw (other, vats-summed rows) (sym (add_assoc r.vat (vats rows) (line_vat l)))
  ]

-- The rows of the summary sum to what the invoice sums to.
abbrev IsBrokenOut : Sums → Type 0
IsBrokenOut s = (nets s.summary ≡ s.net) × (vats s.summary ≡ s.vat)

sums_from-IsBrokenOut : (ls : List Line) (s : Sums) → IsBrokenOut s → IsBrokenOut (sums_from s ls)
unfolding sums_from with_line
sums_from-IsBrokenOut [] s h = h
sums_from-IsBrokenOut (l ∷ ls) s (n, v) = sums_from-IsBrokenOut ls (with_line s l) (
  nets-summed l s.summary ∙ ap (λ a. add a (line_net l)) n,
  vats-summed l s.summary ∙ ap (λ a. add a (line_vat l)) v,
)

sums_of_IsBrokenOut : (ls : List Line) → IsBrokenOut (sums_from no_sums ls)
sums_of_IsBrokenOut ls = sums_from-IsBrokenOut ls no_sums (refl, refl)

module _ (env : Env) (trim_space : Text → Text) (company id : Text) (db : Db) (v : InvoiceView)
    (actor : Option Actor) (pool : Pool) where
  abbrev Shows : InvoiceView → Type 0
  Shows w =
      (nets w.vat_summary ≡ w.net)
      × (vats w.vat_summary ≡ w.vat)
      × (w.total ≡ add (nets w.vat_summary) (vats w.vat_summary))
      × (total_sek_for_render env actor pool company id db ≡ done w.total_sek)

  shown :
      (inv : InvoiceRow) (co : Company) (customer : Counterparty)
      → find_row (has_invoice_id id) db.invoices ≡ some inv
      → text_eq inv.company_id company ≡ true
      → get_company company db.companies ≡ some co
      → get_counterparty env company inv.counterparty_id db ≡ done customer
      → Shows (view_of env trim_space db inv co customer (sums_from no_sums inv.lines))
  unfolding total_sek_for_render
  shown inv co customer f own c g =
      let (n, t) = sums_of_IsBrokenOut inv.lines in
      (n, t, rw (n, t) refl, rw (f, total_sek_for_render) (rw own (rw c (rw g refl))))

  -- An invoice that renders shows a VAT breakout whose nets sum to its net and whose VAT sums to its
  -- VAT, in int64; its total is the sum of the two, and the amount in SEK is the one that a payment
  -- has to settle.
  pub invoice_for_render-IsBrokenOut :
      invoice_for_render env trim_space company id db ≡ done v
      → (nets v.vat_summary ≡ v.net)
        × (vats v.vat_summary ≡ v.vat)
        × (v.total ≡ add (nets v.vat_summary) (vats v.vat_summary))
        × (total_sek_for_render env actor pool company id db ≡ done v.total_sek)
  unfolding invoice_for_render
  invoice_for_render-IsBrokenOut e =
      elim (Option-cases (find_row (has_invoice_id id) db.invoices)) [
        | inl n ↦ absurd (ground arith)
        | inr (inv, f) ↦ elim (Bool-cases (text_eq inv.company_id company)) [
          | inr foreign ↦ absurd (ground arith)
          | inl own ↦ elim (Option-cases (get_company company db.companies)) [
            | inl n ↦ absurd (ground arith)
            | inr (co, c) ↦
                elim (Outcome-cases (get_counterparty env company inv.counterparty_id db)) [
                  | inl (x, g) ↦ absurd (ground arith)
                  | inr (customer, g) ↦
                      let w =
                        view_of env trim_space db inv co customer (sums_from no_sums inv.lines) in
                      let eq : w ≡ v = ground arith in
                      subst Shows eq (shown inv co customer f own c g)
                ]
          ]
        ]
      ]
