-- ===== src/Store/Documents/Backfill.antt =====
-- BackfillDocumentPII (internal/store/store_document.go): the file names and notes of before their
-- encryption. Error wrapping is left out: an error is the one that is wrapped.
pub mod Done
use pare.Common.{
  ℕ, zero, suc, Text, text_eq, is_empty, not, ◌&&◌, ◌||◌, Bool, true, false, Option, none, some,
  List, [], ◌∷◌, if◌then◌else◌,
}
use pare.Store.{
  DocumentRow, Db, update_rows, StoreError, Outcome, failed, done, and_then, dek_unusable,
}
use pare.Store.Env.{Env}
use pare.Store.Counterparty.{company_dek}
use pare.Store.Documents.{has_document_id, chosen, enc_field}
use pare.Store.Views.{member}

-- The variables of the loop: the keys, the companies without one, and the counts.
pub record Progress : Type 0 where
  pub deks : List (Text × Text)
  pub unusable : List Text
  pub migrated : ℕ
  pub skipped : ℕ

-- What the loop returns.
pub record Migration : Type 0 where
  pub migrated : ℕ
  pub skipped : ℕ
  pub error : Option StoreError

abbrev pub is_dek_unusable : StoreError → Bool
is_dek_unusable dek_unusable = true
is_dek_unusable _ = false

abbrev cached : Text → List (Text × Text) → Option Text
cached c [] = none
cached c ((k, dek) ∷ deks) = if text_eq k c then some dek else cached c deks

-- ListDocumentsForPIIBackfill
abbrev pub is_legacy : DocumentRow → Bool
is_legacy d = is_empty d.filename_enc && (not (is_empty d.filename) || not (is_empty d.note))

abbrev pub set_columns : Text → Text → DocumentRow → DocumentRow
set_columns filename_enc note_enc d = record d {
  filename_enc = filename_enc;
  note_enc = note_enc;
  filename = [];
  note = [];
}

-- SetDocumentPIIEnc
unfoldable pub set_document_pii_enc : Text → Text → Text → List DocumentRow → List DocumentRow
unfolding text_eq
set_document_pii_enc id filename_enc note_enc ds =
    update_rows (has_document_id id) (set_columns filename_enc note_enc) ds

abbrev pub returned : Progress → Option StoreError → Migration
returned p e = record { migrated = p.migrated; skipped = p.skipped; error = e }

abbrev pub skipping : Progress → Progress
skipping p = record p { skipped = suc p.skipped }

module _ (env : Env) (dek_for : Text → Outcome Text) (nonces : Text → ℕ → Text) where
  -- The two encField calls of a round.
  unfoldable pub encrypted_pii : Text → DocumentRow → Outcome (Text × Text)
  unfolding enc_field
  encrypted_pii dek r =
      and_then (enc_field env dek (nonces r.id 0) r.filename)
        (λ f. and_then (enc_field env dek (nonces r.id 1) r.note) (λ n. done (f, n)))

  abbrev pub migrate :
      Progress
      → DocumentRow
      → Outcome (Text × Text)
      → List DocumentRow
      → Outcome Progress × List DocumentRow
  migrate p r (failed e) ds = (failed e, ds)
  migrate p r (done (f, n)) ds =
      (done (record p { migrated = suc p.migrated }), set_document_pii_enc r.id f n ds)

  abbrev pub loaded :
      Progress → DocumentRow → Outcome Text → List DocumentRow → Outcome Progress × List DocumentRow
  loaded p r (failed e) ds =
      if is_dek_unusable e
      then (done (skipping (record p { unusable = r.company_id ∷ p.unusable })), ds)
      else (failed e, ds)
  loaded p r (done dek) ds =
      migrate (record p { deks = (r.company_id, dek) ∷ p.deks }) r (encrypted_pii dek r) ds

  abbrev pub with_cached :
      Progress → DocumentRow → Option Text → List DocumentRow → Outcome Progress × List DocumentRow
  with_cached p r none ds = loaded p r (dek_for r.company_id) ds
  with_cached p r (some dek) ds = migrate p r (encrypted_pii dek r) ds

  -- One round of the loop.
  unfoldable pub step :
      Progress → DocumentRow → List DocumentRow → Outcome Progress × List DocumentRow
  unfolding text_eq encrypted_pii set_document_pii_enc
  step p r ds =
      if member r.company_id p.unusable
      then (done (skipping p), ds)
      else with_cached p r (cached r.company_id p.deks) ds

  -- backfillDocumentPIIRows
  unfoldable pub backfill_document_pii_rows :
      List DocumentRow → Progress → List DocumentRow → Migration × List DocumentRow
  unfolding step
  backfill_document_pii_rows [] p ds = (returned p none, ds)
  backfill_document_pii_rows (r ∷ rs) p ds =
      let (o, ds') = step p r ds in
      elim o [
        | failed e ↦ (returned p (some e), ds')
        | done q ↦ backfill_document_pii_rows rs q ds'
      ]

abbrev no_progress : Progress
no_progress = record { deks = []; unusable = []; migrated = 0; skipped = 0 }

-- Store.BackfillDocumentPII; its writes leave the keys of the companies alone.
unfoldable pub backfill_document_pii : Env → (Text → ℕ → Text) → Db → Migration × Db
unfolding backfill_document_pii_rows company_dek chosen
backfill_document_pii env nonces db =
    let (m, ds) =
      backfill_document_pii_rows env (λ c. company_dek env c db) nonces
        (chosen is_legacy db.documents) no_progress db.documents in
    (m, record db { documents = ds })
