-- ===== src/Store/Views.antt =====
-- internal/store/store_invoice.go, store_mcp.go and store_web.go: an invoice as it is printed, and the
-- lists that the assistant and the pages read.
--
-- A view has no OCR reference, since nothing in the program writes that column. strings.TrimSpace is an
-- argument, and so is the day on which time.Now falls.
pub mod Breakout
pub mod Matching
use mathlib.Core.List.{reverse}
use pare.Crypto.{take}
use pare.Common.{
  ℕ, ltb, ◌==◌, Text, bytes, text_eq, is_empty, not, ◌&&◌, ◌||◌, Bool, true, false, Option, none,
  some, List, [], ◌∷◌, ◌++◌, if◌then◌else◌,
}
use pare.Common.Int.{ℤ, pos, eqb_ℤ, ltb_ℤ}
use pare.Common.Int64.{add, sub}
use pare.Ledger.Money.{Amount}
use pare.Ledger.Reports.{AccountBalance, Balances}
use pare.Moms.{Code, label, line_label, legal_note}
use pare.Invoice.{Line, line_net, line_vat, gross_sek}
use pare.Store.{
  Company, Profile, CounterpartyRow, InvoiceRow, AuditRow, Db, Status, draft, finalized, paid,
  cancelled, credited, is_finalized, find_row, update_rows, StoreError, Outcome, failed, done,
  and_then, get_company, uuid_from_pg, no_rows, foreign_company, name_required,
}
use pare.Store.Env.{Env}
use pare.Store.Audit.{Actor}
use pare.Store.Act.{Act, guard, exec, log, ◌>>=◌, ◌>>◌}
use pare.Store.Payment.{abs_amount, ores_rounding_threshold}
use pare.Store.Counterparty.{Counterparty, get_counterparty}
use pare.Store.Invoices.{has_invoice_id, invoice_of}
use pare.Store.Close.{trial_balance}

pub record VatSummaryRow : Type 0 where
  pub label : Text
  pub net : Amount
  pub vat : Amount

pub record InvoiceViewLine : Type 0 where
  pub description : Text
  pub quantity_milli : ℤ
  pub unit_price : Amount
  pub vat_label : Text
  pub net : Amount
  pub vat : Amount

-- The rows of the summary, each under the code that sumIdx has for it.
abbrev pub Summary : Type 0
Summary = List (Code × VatSummaryRow)

pub record InvoiceView : Type 0 where
  pub number : Text
  pub status : Status
  pub date : Option ℕ
  pub due_date : Option ℕ
  pub company : Profile
  -- The postal code and the city.
  pub company_postal : Text
  pub customer : Counterparty
  pub lines : List InvoiceViewLine
  pub vat_summary : Summary
  pub legal_notes : List Text
  pub net : Amount
  pub vat : Amount
  pub total : Amount
  pub currency : Text
  pub total_sek : Amount
  pub amount_paid : Amount
  pub is_credit : Bool
  pub credits_number : Text

-- InvoiceView.Outstanding
unfoldable pub outstanding : InvoiceView → Amount
unfolding sub
outstanding v = sub v.total_sek v.amount_paid

unfoldable pub view_line : Line → InvoiceViewLine
unfolding line_label line_net line_vat
view_line l = record {
  description = l.description;
  quantity_milli = l.quantity_milli;
  unit_price = l.unit_price_ore;
  vat_label = line_label l.vat_code;
  net = line_net l;
  vat = line_vat l;
}

-- The row of the line's code, made if it is missing, with the line's sums added.
unfoldable pub summed : Line → Summary → Summary
unfolding label line_net line_vat add text_eq
summed l [] =
    (l.vat_code, record { label = label l.vat_code; net = line_net l; vat = line_vat l }) ∷ []
summed l ((c, r) ∷ rows) =
    if text_eq c l.vat_code
    then (c, record r { net = add r.net (line_net l); vat = add r.vat (line_vat l) }) ∷ rows
    else (c, r) ∷ summed l rows

abbrev pub member : Text → List Text → Bool
member s [] = false
member s (t ∷ ts) = text_eq t s || member s ts

-- A note is printed once.
unfoldable pub noted : Code → List Text → List Text
unfolding legal_note text_eq
noted c notes =
    if not (is_empty (legal_note c)) && not (member (legal_note c) notes)
    then notes ++ legal_note c ∷ []
    else notes

-- The sums of the loop of InvoiceForRender.
pub record Sums : Type 0 where
  pub lines : List InvoiceViewLine
  pub net : Amount
  pub vat : Amount
  pub summary : Summary
  pub notes : List Text

unfoldable pub with_line : Sums → Line → Sums
unfolding view_line summed noted line_net line_vat add
with_line s l = record {
  lines = s.lines ++ view_line l ∷ [];
  net = add s.net (line_net l);
  vat = add s.vat (line_vat l);
  summary = summed l s.summary;
  notes = noted l.vat_code s.notes;
}

unfoldable pub sums_from : Sums → List Line → Sums
unfolding with_line
sums_from s [] = s
sums_from s (l ∷ ls) = sums_from (with_line s l) ls

abbrev pub no_sums : Sums
no_sums = record { lines = []; net = pos 0; vat = pos 0; summary = []; notes = [] }

abbrev number_of : Option InvoiceRow → Text
number_of none = []
number_of (some inv) = inv.number

abbrev credited_number : Option Text → Db → Text
credited_number none db = []
credited_number (some id) db = number_of (find_row (has_invoice_id id) db.invoices)

abbrev is_some : {A : Type 0} → Option A → Bool
is_some none = false
is_some (some a) = true

module _ (env : Env) (trim_space : Text → Text) where
  abbrev pub view_of : Db → InvoiceRow → Company → Counterparty → Sums → InvoiceView
  view_of db inv co customer s = record {
    number = inv.number;
    status = inv.status;
    date = inv.invoice_date;
    due_date = inv.due_date;
    company = co.profile;
    company_postal = trim_space (co.profile.postal_code ++ b' ' ∷ co.profile.city);
    customer = customer;
    lines = s.lines;
    vat_summary = s.summary;
    legal_notes = s.notes;
    net = s.net;
    vat = s.vat;
    total = add s.net s.vat;
    currency = inv.currency;
    total_sek = gross_sek (invoice_of [] 0 0 inv);
    amount_paid = inv.amount_paid;
    is_credit = is_some inv.credits_invoice_id;
    credits_number = credited_number inv.credits_invoice_id db;
  }

  -- Store.InvoiceForRender
  unfoldable pub invoice_for_render : Text → Text → Db → Outcome InvoiceView
  unfolding text_eq get_company get_counterparty sums_from add gross_sek
  invoice_for_render company id db = elim (find_row (has_invoice_id id) db.invoices) [
    | none ↦ failed no_rows
    | some inv ↦
        if not (text_eq inv.company_id company)
        then failed foreign_company
        else elim (get_company company db.companies) [
          | none ↦ failed no_rows
          | some co ↦
              and_then (get_counterparty env company inv.counterparty_id db)
                (λ customer. done (view_of db inv co customer (sums_from no_sums inv.lines)))
        ]
  ]

pub record InvoiceSummary : Type 0 where
  pub id : Text
  pub number : Text
  pub customer_name : Text
  pub customer_org_nr : Text
  pub total : Amount
  pub currency : Text
  pub total_sek : Amount
  pub amount_paid : Amount
  pub due_date : Text
  pub status : Status
  pub overdue : Bool
  pub is_credit : Bool

-- InvoiceSummary.PartlyPaid
unfoldable pub partly_paid : InvoiceSummary → Bool
partly_paid s =
    is_finalized s.status && ltb_ℤ (pos 0) s.amount_paid && ltb_ℤ s.amount_paid s.total_sek

-- The rows of a company, in the order in which they were made.
unfoldable pub rows_of : Text → List InvoiceRow → List InvoiceRow
unfolding text_eq
rows_of company [] = []
rows_of company (r ∷ rs) =
    if text_eq r.company_id company then r ∷ rows_of company rs else rows_of company rs

-- `for _, x := range xs { y, err := f(x); if err != nil { return nil, err }; out = append(out, y) }`
unfoldable pub each_of : {A B : Type 0} → (A → Outcome B) → List A → Outcome (List B)
each_of f [] = done []
each_of f (x ∷ xs) = and_then (f x) (λ y. and_then (each_of f xs) (λ ys. done (y ∷ ys)))

-- status = 'finalized' and no credit note
abbrev pub is_open : InvoiceRow → Bool
is_open r = is_finalized r.status && not (is_some r.credits_invoice_id)

abbrev pub kept : {A : Type 0} → (A → Bool) → List A → List A
kept p [] = []
kept p (x ∷ xs) = if p x then x ∷ kept p xs else kept p xs

-- Store.DefaultCompany: the first company; its error is ErrNoCompany.
unfoldable pub default_company : Db → Option Text
default_company db = elim db.companies [ [] ↦ none | co ∷ cos ↦ some co.id ]

abbrev pub is_receivable : InvoiceSummary → Bool
is_receivable s = is_finalized s.status && not s.is_credit

-- What an amount would leave of an invoice.
unfoldable pub difference : Amount → InvoiceSummary → Amount
unfolding sub
difference amount s = sub (sub s.total_sek s.amount_paid) amount

abbrev pub is_exact : Amount → InvoiceSummary → Bool
is_exact amount s = is_receivable s && eqb_ℤ (difference amount s) (pos 0)

abbrev pub is_near : Amount → InvoiceSummary → Bool
is_near amount s =
    is_receivable s
    && not (eqb_ℤ (difference amount s) (pos 0))
    && ltb_ℤ (abs_amount (difference amount s)) ores_rounding_threshold

module _ (env : Env) (trim_space : Text → Text) (today : ℕ) where
  -- fmtDate
  abbrev pub fmt_date : Option ℕ → Text
  fmt_date none = []
  fmt_date (some d) = if d == 0 then [] else env.format_date d

  abbrev pub is_before : Option ℕ → Bool
  is_before none = false
  is_before (some d) = not (d == 0) && ltb d today

  abbrev pub summary_of : InvoiceRow → InvoiceView → InvoiceSummary
  summary_of r v = record {
    id = r.id;
    number = v.number;
    customer_name = v.customer.name;
    customer_org_nr = v.customer.org_nr;
    total = v.total;
    currency = v.currency;
    total_sek = v.total_sek;
    amount_paid = v.amount_paid;
    due_date = fmt_date v.due_date;
    status = r.status;
    overdue = is_open r && is_before v.due_date;
    is_credit = is_some r.credits_invoice_id;
  }

  abbrev pub summarized : Text → Db → InvoiceRow → Outcome InvoiceSummary
  summarized company db r =
      and_then (invoice_for_render env trim_space company r.id db) (λ v. done (summary_of r v))

  -- Store.ListInvoiceSummaries
  unfoldable pub list_invoice_summaries : Text → Db → Outcome (List InvoiceSummary)
  unfolding each_of rows_of invoice_for_render
  list_invoice_summaries company db = each_of (summarized company db) (rows_of company db.invoices)

  -- Store.UnpaidInvoices, whose summaries leave what is paid and the marks of a list at zero.
  unfoldable pub unpaid_invoices : Text → Db → Outcome (List InvoiceSummary)
  unfolding each_of rows_of invoice_for_render
  unpaid_invoices company db =
      each_of
        (λ r.
          and_then (summarized company db r)
            (λ s. done (record s { amount_paid = pos 0; overdue = false; is_credit = false })))
        (kept is_open (rows_of company db.invoices))

  -- Store.MatchOpenInvoices: the two lists that its loop fills, one after the other.
  unfoldable pub match_open_invoices : Text → Amount → Db → Outcome (List InvoiceSummary)
  unfolding list_invoice_summaries
  match_open_invoices company amount db =
      and_then (list_invoice_summaries company db)
        (λ all. done (kept (is_exact amount) all ++ kept (is_near amount) all))

-- Store.BalancesMap: the accounts of a trial balance are different.
unfoldable pub to_map : List AccountBalance → Balances
to_map [] = []
to_map (r ∷ rows) = (r.account, r.net) ∷ to_map rows

unfoldable pub balances_map : Text → Db → Outcome Balances
unfolding trial_balance to_map
balances_map company db = and_then (trial_balance company db) (λ tb. done (to_map tb))

-- Store.ListCounterparties
unfoldable pub list_counterparties : Env → Text → Db → Outcome (List Counterparty)
unfolding each_of get_counterparty text_eq
list_counterparties env company db =
    each_of (λ r. get_counterparty env company r.id db)
      (kept (λ (r : CounterpartyRow). text_eq r.company_id company) db.counterparties)

-- Store.UpdateCompanyProfile; the error for an empty name is the one of a counterparty.
unfoldable pub update_company_profile : Env → Option Actor → Text → Profile → Act (Unit {0})
unfolding text_eq ◌>>=◌
update_company_profile env actor company p = do
  guard (not (is_empty p.name)) name_required
  exec (λ db. record db {
    companies =
        update_rows (λ (c : Company). text_eq c.id company) (λ c. record c { profile = p })
          db.companies;
  })
  log env.mac actor company (bytes "update_company_profile") (bytes "company") company p.name

-- Store.ListAudit: the newest entries of the company, the newest first, and `limit` at most.
unfoldable pub list_audit : Text → ℕ → Db → List AuditRow
unfolding text_eq
list_audit company limit db =
    take limit (reverse (kept (λ (r : AuditRow). text_eq r.company_id company) db.audit_log))

-- Store.LogUserAction
unfoldable pub log_user_action :
    Env → Option Actor → Text → Text → Text → Text → Text → Act (Unit {0})
log_user_action env actor company action target_type target_id detail =
    log env.mac actor company action target_type target_id detail
