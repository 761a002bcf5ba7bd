-- ===== src/Store/Import/Count.antt =====
-- What ImportSIE (internal/store/store_sie_import.go) adds to an empty ledger, and that it does so once.
use mathlib.Core.List.{Memᴰ}
use pare.Common.{
  ◌≢◌, ◌↔◌, ◌∙◌, Bool-cases, inl, inr, ℕ, suc, ◌+◌, ◌==◌, ==_iff, ltb, ◌≡◌, refl, ap, sym, Text,
  bytes, text_eq_refl, Bool, true, false, not, Option, List, [], ◌∷◌, ◌++◌, length, arith,
  if◌then◌else◌,
}
use pare.Common.Decimal.{decimal}
use pare.Common.Int.{ℤ, pos}
use pare.Ledger.Money.{is_pos, is_neg}
use pare.Sie.{Voucher}
use pare.Store.{VerificationRow, Db, StoreError, Outcome, failed, done, Pool, ledger_not_empty}
use pare.Store.Env.{Env}
use pare.Store.Audit.{Actor}
use pare.Store.Posting.{Posting, row_of, post_verification}
use pare.Store.Posting.Done.{post_verification_done}
use pare.Store.Act.{pure, each, post, written, gets, ◌>>=◌}
use pare.Store.Act.Keeps.{Keeps, Keeps-each}
use pare.Store.Act.Same.{Same, Same-exec, Same-IsPreorder, log_done, log_answer}
use pare.Store.Act.Steps.{after_guard, after_post, after_done, transaction_ran}
use pare.Store.Import.{
  Export, SieImportResult, with_account, upsert_account, opening_lines, count_verifications,
  post_opening, post_voucher, with_ids, import_sie,
}

count_append :
    (company : Text) (vs : List VerificationRow) (r : VerificationRow)
    → r.company_id ≡ company
    → count_verifications company (vs ++ r ∷ []) ≡ suc (count_verifications company vs)
count_append company [] r e = let t = text_eq_refl company in ground arith
count_append company (v ∷ vs) r e = ground (arith, count_append company vs r)

count_posted :
    (company new_id : Text) (p : Posting) (db db' : Db)
    → p.company_id ≡ company
    → post_verification new_id p db ≡ done db'
    → count_verifications company db'.verifications
      ≡ suc (count_verifications company db.verifications)
count_posted company new_id p db db' same e =
    let (_, _, _, (number, _, eq)) = post_verification_done new_id p db db' e in
    rw eq (count_append company db.verifications (row_of new_id number p) same)

with_account_verifications :
    (company number : Text) (db : Db)
    → (with_account company number db).verifications ≡ db.verifications
with_account_verifications company number db = ground arith

written_done : (db db' : Db) (o : Outcome Db) → written db o ≡ (done tt, db') → o ≡ done db'
written_done db db' (failed e) h = absurd (cc)
written_done db db' (done end) h = ground arith

opening_of :
    (b : Bool) (company new_id : Text) (p : Posting) (db db' : Db)
    → p.company_id ≡ company
    → (if not b then pure tt else post new_id p) db ≡ (done tt, db')
    → count_verifications company db'.verifications
      ≡ (if b then 1 else 0) + count_verifications company db.verifications
unfolding pure post
opening_of false company new_id p db db' same h =
    omega (arith, ap (λ r. count_verifications company r.1.verifications) h)
opening_of true company new_id p db db' same h = omega (
  arith,
  count_posted company new_id p db db' same (written_done db db' (post_verification new_id p db) h),
)

-- An opening balance of the file that is not zero.
abbrev pub HasOpening : List (Text × ℤ) → Type 0
HasOpening bs = (b : Text × ℤ) × Memᴰ b bs × (b.1 ≢ pos 0)

HasOpening-more : (b : Text × ℤ) (bs : List (Text × ℤ)) → HasOpening bs → HasOpening (b ∷ bs)
HasOpening-more b bs (c, m, n) = (c, Memᴰ.tail m, n)

HasOpening-skip :
    (b : Text × ℤ) (bs : List (Text × ℤ)) → b.1 ≡ pos 0 → HasOpening (b ∷ bs) → HasOpening bs
HasOpening-skip b bs z (c, Memᴰ.head e, n) = absurd (n (ap (λ (x : Text × ℤ). x.1) e ∙ z))
HasOpening-skip b bs z (c, Memᴰ.tail m, n) = (c, m, n)

-- There are lines to post exactly when there is such a balance.
opening_lines-HasOpening :
    (bs : List (Text × ℤ)) → (ltb 0 (length (opening_lines bs)) ≡ true) ↔ HasOpening bs
unfolding opening_lines
opening_lines-HasOpening [] = (λ h. absurd (cc), λ (c, m, n). elim m [ ])
opening_lines-HasOpening ((account, amount) ∷ bs) =
    let b : Text × ℤ = (account, amount) in
    let rest = opening_lines-HasOpening bs in
    elim (Bool-cases (is_pos amount)) [
      | inl p ↦ (λ h. (b, Memᴰ.head refl, λ z. absurd (cc (ap is_pos z))), λ h. ground arith)
      | inr p ↦ elim (Bool-cases (is_neg amount)) [
        | inl q ↦ (λ h. (b, Memᴰ.head refl, λ z. absurd (cc (ap is_neg z))), λ h. ground arith)
        | inr q ↦
            let nothing : amount ≡ pos 0 = ground arith in
            (
              λ h. HasOpening-more b bs (rest.0 (ground arith)),
              λ h. let k = rest.1 (HasOpening-skip b bs nothing h) in ground arith,
            )
      ]
    ]

module _ (env : Env) (actor : Option Actor) (pool : Pool) where
  length-with_ids :
      (ids : ℕ → Text) (n : ℕ) (vs : List Voucher)
      → length (with_ids env actor pool ids n vs) ≡ length vs
  length-with_ids ids n [] = refl
  length-with_ids ids n (v ∷ vs) = ap suc (length-with_ids ids (suc n) vs)

  count-each :
      (company : Text) (vs : List (Text × Voucher)) (db db' : Db)
      → each (post_voucher env actor pool company) vs db ≡ (done tt, db')
      → count_verifications company db'.verifications
        ≡ length vs + count_verifications company db.verifications
  unfolding each post_voucher pure
  count-each company [] db db' h =
      omega (arith, ap (λ r. count_verifications company r.1.verifications) h)
  count-each company ((new_id, v) ∷ vs) db db' h =
      let P : Outcome (Unit {0}) × Db → Type 0 = λ r.
        r ≡ (done tt, db')
        → count_verifications company db'.verifications
          ≡ suc (length vs) + count_verifications company db.verifications in
      after_post P db (λ e q. absurd (cc)) new_id _ _
        (λ at e q.
          let c = count_posted company new_id _ db at refl e in
          let rest = count-each company vs at db' q in omega arith)
        h

  count-opening :
      (new_id company : Text) (exp : Export) (today : ℕ) (db db' : Db)
      → post_opening env actor pool new_id company exp today db ≡ (done tt, db')
      → count_verifications company db'.verifications
        ≡ (if ltb 0 (length (opening_lines exp.opening_balances)) then 1 else 0)
          + count_verifications company db.verifications
  unfolding post_opening
  count-opening new_id company exp today db db' h =
      opening_of (ltb 0 (length (opening_lines exp.opening_balances))) company new_id _ db db' refl
        h

  upserts_verifications :
      (company : Text) (accounts : List Text)
      → Keeps (Same (λ db. db.verifications)) (each (upsert_account company) accounts)
  upserts_verifications company accounts =
      Keeps-each (upsert_account company) accounts Same-IsPreorder (λ number.
        Same-exec (with_account company number) (with_account_verifications company number))

  -- When ImportSIE succeeds, the company has a verifikat for each voucher of the file, one more exactly
  -- if the file has an opening balance that is not zero, and no other; the counts that it returns say
  -- so, and the count of accounts is that of the file.
  pub import_sie-count :
      (ids : ℕ → Text) (company : Text) (exp : Export) (today : ℕ) (r : SieImportResult)
      (db db' : Db)
      → import_sie env actor pool ids company exp today db ≡ (done r, db')
      → (count_verifications company db'.verifications
          ≡ r.vouchers + (if r.opening_posted then 1 else 0))
        × ((r.opening_posted ≡ true) ↔ HasOpening exp.opening_balances)
        × (r.vouchers ≡ length exp.vouchers)
        × (r.accounts_seeded ≡ length exp.accounts)
  unfolding import_sie gets ◌>>=◌
  import_sie-count ids company exp today r db db' h =
      let P : Outcome SieImportResult × Db → Type 0 = λ q.
        q ≡ (done r, db')
        → (count_verifications company db'.verifications
            ≡ r.vouchers + (if r.opening_posted then 1 else 0))
          × ((r.opening_posted ≡ true) ↔ HasOpening exp.opening_balances)
          × (r.vouchers ≡ length exp.vouchers)
          × (r.accounts_seeded ≡ length exp.accounts) in
      let stop : (at : Db) (e : StoreError) → P (failed e, at) = λ at e q. absurd (cc) in
      let detail =
        decimal (length exp.vouchers)
        ++ (bytes " verifikat, " ++ (decimal (length exp.accounts) ++ bytes " konton")) in
      let value : SieImportResult = record {
        accounts_seeded = length exp.accounts;
        opening_posted = ltb 0 (length (opening_lines exp.opening_balances));
        vouchers = length exp.vouchers;
      } in
      after_guard P db (stop db) (count_verifications company db.verifications == 0)
        ledger_not_empty _
        (λ none.
          after_done P stop (each (upsert_account company) exp.accounts) _ db (λ _ db1 seeded.
            after_done P stop (post_opening env actor pool (ids 0) company exp today) _ db1
              (λ _ db2 opened.
                after_done P stop
                  (each (post_voucher env actor pool company)
                    (with_ids env actor pool ids 1 exp.vouchers))
                  _ db2
                  (λ _ db3 posted q.
                    let same = ((upserts_verifications company exp.accounts).at db).same in
                    let answer =
                      log_answer env.mac actor company (bytes "import_sie") (bytes "company")
                        company detail value r db3 db' q in
                    let end =
                      log_done env.mac actor company (bytes "import_sie") (bytes "company") company
                        detail value r db3 db' q in
                    rw (sym answer) (
                      omega (
                        arith,
                        (==_iff (count_verifications company db.verifications) 0).0 none,
                        ap (λ r. count_verifications company r.1.verifications) seeded,
                        ap (λ vs. count_verifications company vs) same,
                        count-opening (ids 0) company exp today db1 db2 opened,
                        count-each company (with_ids env actor pool ids 1 exp.vouchers) db2 db3
                            posted,
                        length-with_ids ids 1 exp.vouchers,
                        ap (λ d. count_verifications company d.verifications) end,
                      ),
                      opening_lines-HasOpening exp.opening_balances,
                      refl,
                      refl,
                    )))))
        (transaction_ran pool _ db db' r h)
