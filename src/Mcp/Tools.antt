-- ===== src/Mcp/Tools.antt =====
-- internal/mcp/tools.go: the tools, and what each gives. A result is the struct that is shielded and
-- encoded, with its shield tags; the names under which it is encoded are left out.
use pare.Common.{
  ℕ, Text, bytes, text_eq, is_empty, Bool, true, false, ◌&&◌, Option, none, some, List, [], ◌∷◌,
  ◌++◌, length, if◌then◌else◌,
}
use pare.Common.Int.{ℤ, pos, eqb_ℤ, ltb_ℤ}
use pare.Common.Int64.{add, sub}
use pare.Ledger.Money.{Amount, amount_string}
use pare.Ledger.Chart.{
  AccountClass, class_unknown, class_asset, class_equity_liability, class_income, class_expense,
  class_financial,
}
use pare.Ledger.Verification.{Error, validate}
use pare.Ledger.Reports.{AccountBalance, result_of}
use pare.Moms.{Declaration, report}
use pare.Store.{AuditRow, VerificationRow, Db, Outcome, get_company, no_rows, nil_uuid, invalid}
use pare.Store as Store
use pare.Store.Posting.{Posting, verification_of, debit_total, public_post_verification}
use pare.Store.Close.{trial_balance as net_balances, trial_balance_between}
use pare.Store.Invoices.Payments.{record_payment_by_number}
use pare.Store.Views.{
  InvoiceSummary, kept, to_map, unpaid_invoices, match_open_invoices, list_audit,
}
use pare.Shield.Walk.{
  Value, text, scalar, pointer, slice, struct, Items, nil, cons, Fields, end, field,
}
use pare.Mcp.{
  ToolError, of_store, invalid_args, bad_date, over_ceiling, Tool, overview, unpaid, trial_balance,
  moms_report, export_sie, recent_activity, post_verification, match_payment, record_payment,
  PostArgs, PaymentArgs, Server, Moment, assistant,
}

-- What the function of a tool returns.
pub data Ran : Type 0 where
  refused : ToolError → Ran
  gave : Value → Ran

-- A field without a shield tag, and those that are tokenized.
abbrev pub plain : Value → Fields → Fields
plain v fs = field [] true v fs

abbrev pub name_field : Text → Fields → Fields
name_field t fs = field (bytes "tokenize,kind=name") true (text t) fs

abbrev pub orgnr_field : Text → Fields → Fields
orgnr_field t fs = field (bytes "tokenize,kind=orgnr") true (text t) fs

abbrev pub said : Text → Fields → Fields
said t fs = plain (text t) fs

-- Amount.String
abbrev pub kr : Amount → Fields → Fields
kr a fs = said (amount_string a) fs

abbrev pub flag : Bool → Fields → Fields
flag b fs = plain (scalar (if b then 1 else 0)) fs

-- A slice of a struct for each element.
abbrev pub items : {A : Type 0} → (A → Fields) → List A → Items
items f [] = nil
items f (x ∷ xs) = cons (struct (f x)) (items f xs)

abbrev pub rows : {A : Type 0} → (A → Fields) → List A → Fields → Fields
rows f xs fs = plain (slice (items f xs)) fs

abbrev pub answer_with : {A : Type 0} → (A → Fields) → Outcome A → Ran
answer_with f (Outcome.failed e) = refused (of_store e)
answer_with f (Outcome.done a) = gave (pointer (struct (f a)))

-- The loops that add up.
unfoldable pub sum_nets : Amount → List AccountBalance → Amount
sum_nets total [] = total
sum_nets total (r ∷ tb) = sum_nets (add total r.net) tb

unfoldable pub sum_unpaid : Amount → List InvoiceSummary → Amount
sum_unpaid total [] = total
sum_unpaid total (u ∷ us) = sum_unpaid (add total u.total_sek) us

abbrev pub class_number : AccountClass → ℕ
class_number class_unknown = 0
class_number class_asset = 1
class_number class_equity_liability = 2
class_number class_income = 3
class_number class_expense = 4
class_number class_financial = 5

abbrev pub overview_fields : List AccountBalance × List InvoiceSummary → Fields
overview_fields (tb, us) =
    let d = report (to_map tb) in
    kr (result_of tb) (
      kr (add (add d.box10 d.box11) d.box12)
        (kr d.box48 (kr d.box49 (plain (scalar (length us)) (kr (sum_unpaid (pos 0) us) end)))))

abbrev pub unpaid_row : InvoiceSummary → Fields
unpaid_row u = said u.number (
    name_field u.customer_name (
      orgnr_field u.customer_org_nr (
        said (amount_string u.total)
          (said u.currency (said (amount_string u.total_sek) (said u.due_date end))))))

abbrev pub match_row : Amount → InvoiceSummary → Fields
match_row received m =
    let out = sub m.total_sek m.amount_paid in
    said m.number
      (name_field m.customer_name (kr out (said m.due_date (flag (eqb_ℤ out received) end))))

abbrev pub balance_row : AccountBalance → Fields
balance_row r = said r.account (plain (scalar (class_number r.class)) (kr r.net end))

abbrev pub moms_fields : Declaration → Fields
moms_fields d = kr d.box05 (
    kr d.box10 (
      kr d.box11 (
        kr d.box12
          (kr d.box21 (kr d.box22 (kr d.box30 (kr d.box39 (kr d.box48 (kr d.box49 end)))))))))

-- The free text of an entry is not shown.
abbrev pub audit_fields : (AuditRow → Text) → AuditRow → Fields
audit_fields time e =
    said (time e) (said e.actor (said e.action (said (e.target_type ++ b':' ∷ e.target_id) end)))

-- The number of vouchers of Store.ExportSIE.
unfoldable pub voucher_count : Text → Db → Outcome ℕ
unfolding get_company text_eq
voucher_count company db = elim (get_company company db.companies) [
  | none ↦ Outcome.failed no_rows
  | some co ↦
      Outcome.done
        (length (kept (λ (v : VerificationRow). text_eq v.company_id company) db.verifications))
]

-- checkCeiling: whether an amount may be written.
unfoldable pub check_ceiling : ℤ → ℤ → Option ToolError
check_ceiling ceiling ore =
    if ltb_ℤ (pos 0) ceiling && ltb_ℤ ceiling ore then some over_ceiling else none

abbrev pub export_fields : ℕ → Fields
export_fields n = said (bytes "pare-export.se") (
    plain (scalar n) (
      said
        (bytes
          "The SIE file contains identifying free text and is not exposed to the assistant. Download it from the Rapporter page in the Pare UI.")
        end))

module _ (srv : Server) (now : Moment) (company : Text) where
  -- periodBalances: a date that is missing or bad means all time.
  abbrev chosen : Option ℕ → Option ℕ → Db → Outcome (List AccountBalance)
  chosen (some from) (some to) db = trial_balance_between company from to db
  chosen _ _ db = net_balances company db

  unfoldable pub period_balances : Text → Db → Outcome (List AccountBalance)
  unfolding trial_balance_between net_balances
  period_balances args db =
      let (from, to) = srv.codec.decode_period args in
      chosen (srv.codec.parse_date from) (srv.codec.parse_date to) db

  abbrev pub unpaid_of : Db → Outcome (List InvoiceSummary)
  unpaid_of db = unpaid_invoices srv.env srv.codec.trim_space now.now company db

  abbrev pub overview_of : Db → Outcome (List AccountBalance × List InvoiceSummary)
  overview_of db =
      Store.and_then (net_balances company db)
        (λ tb. Store.and_then (unpaid_of db) (λ us. Outcome.done (tb, us)))

  -- runMatchPayment after its arguments are read.
  abbrev pub matched : Option ℤ → Db → Ran
  matched none db = refused invalid_args
  matched (some received) db =
      answer_with (λ ms. rows (match_row received) ms end)
        (match_open_invoices srv.env srv.codec.trim_space now.now company received db)

  abbrev pub posting_of : PostArgs → ℕ → Posting
  posting_of a date = record {
    company_id = company;
    series = a.series;
    date = date;
    description = a.description;
    lines = a.lines;
    reversal_of = nil_uuid;
  }

  -- &postResult, with the id of the verifikat.
  abbrev pub post_result : Text → Bool → Bool → Text → Value
  post_result id done_ dry note = pointer (struct (said id (flag done_ (flag dry (said note end)))))

  abbrev pub payment_result : Text → Text → Bool → Bool → Text → Value
  payment_result id number done_ dry note =
      pointer (struct (said id (said number (flag done_ (flag dry (said note end))))))

  abbrev pub written : (Text → Value) → Outcome Text × Db → Ran × Db
  written f (Outcome.failed e, db) = (refused (of_store e), db)
  written f (Outcome.done id, db) = (gave (f id), db)

  abbrev pub tried : Option Error → Value → Ran
  tried (some e) v = refused (of_store (invalid e))
  tried none v = gave v

  -- runPostVerification, from the date on.
  abbrev pub post_within : PostArgs → ℕ → Option ToolError → Db → Ran × Db
  post_within a date (some e) db = (refused e, db)
  post_within a date none db =
      if a.dry_run
      then (
        tried (validate (verification_of (posting_of a date))) (
            post_result [] false true
              (bytes "Balanserad. Inget bokfördes (dry_run). Be en människa bekräfta i Pare.")),
        db,
      )
      else written (λ id. post_result id true false [])
          (public_post_verification srv.env.mac (some assistant) now.pool now.new_id
            (posting_of a date) db)

  abbrev pub post_dated : PostArgs → Option ℕ → Db → Ran × Db
  post_dated a none db = (refused bad_date, db)
  post_dated a (some date) db =
      post_within a date (check_ceiling srv.max_write_ore (debit_total (pos 0) a.lines)) db

  abbrev pub posted : Option PostArgs → Db → Ran × Db
  posted none db = (refused invalid_args, db)
  posted (some a) db = post_dated a (srv.codec.parse_date a.date) db

  -- runPostVerification
  unfoldable pub run_post_verification : Text → Db → Ran × Db
  run_post_verification args db = posted (srv.codec.decode_post args) db

  -- The account that a payment goes to.
  abbrev pub account_of : PaymentArgs → Text
  account_of a = if is_empty a.account then bytes "1930" else a.account

  abbrev pub pay_within : PaymentArgs → ℕ → Option ToolError → Db → Ran × Db
  pay_within a date (some e) db = (refused e, db)
  pay_within a date none db =
      if a.dry_run
      then (
        gave (
            payment_result [] a.invoice_number false true
              (bytes "Inget bokfördes (dry_run). Be en människa bekräfta betalningen i Pare.")),
        db,
      )
      else written (λ id. payment_result id a.invoice_number true false [])
          (record_payment_by_number srv.env (some assistant) now.pool now.new_id company
            a.invoice_number date (account_of a) a.received_sek_ore db)

  abbrev pub paid_dated : PaymentArgs → Option ℕ → Db → Ran × Db
  paid_dated a none db = (refused bad_date, db)
  paid_dated a (some date) db =
      pay_within a date (check_ceiling srv.max_write_ore a.received_sek_ore) db

  abbrev pub paid_by : Option PaymentArgs → Db → Ran × Db
  paid_by none db = (refused invalid_args, db)
  paid_by (some a) db = paid_dated a (srv.codec.parse_date a.date) db

  -- runRecordPayment
  unfoldable pub run_record_payment : Text → Db → Ran × Db
  run_record_payment args db = paid_by (srv.codec.decode_payment args) db

  -- The run of each tool.
  unfoldable pub run : Tool → Text → Db → Ran × Db
  run overview args db = (answer_with overview_fields (overview_of db), db)
  run unpaid args db = (answer_with (λ us. rows unpaid_row us end) (unpaid_of db), db)
  run trial_balance args db = (
    answer_with (λ tb. rows balance_row tb (kr (sum_nets (pos 0) tb) end))
        (period_balances args db),
    db,
  )
  run moms_report args db =
      (answer_with (λ tb. moms_fields (report (to_map tb))) (period_balances args db), db)
  run export_sie args db = (answer_with export_fields (voucher_count company db), db)
  run recent_activity args db = (
    answer_with (λ es. rows (audit_fields srv.codec.entry_time) es end)
        (Outcome.done (list_audit company 50 db)),
    db,
  )
  run post_verification args db = run_post_verification args db
  run match_payment args db = (matched (srv.codec.decode_match args) db, db)
  run record_payment args db = run_record_payment args db
