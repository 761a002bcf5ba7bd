-- ===== src/Store/Documents/Examples.antt =====
-- Documents of two companies, of which one has a key that cannot be unwrapped.
use pare.Common.{ℕ, ◌+◌, ◌≡◌, refl, ap, Text, bytes, none, [], ◌∷◌, All, length}
use pare.Store.{DocumentRow, no_profile, Db, done, failed, document_attached}
use pare.Crypto.{encrypt_field, decrypt_field}
use pare.Store.Act.{pure, lift, from, read, guard, exec, exec_rows, log}
use pare.Store.Examples.{company, open_books}
use pare.Store.Requests.{env}
use pare.Store.Documents.{
  save_document, get_document_content, attach_document_to_supplier, delete_document, chosen,
}
use pare.Store.Documents.Backfill.{Migration, backfill_document_pii, is_legacy}
use pare.Store.Documents.Backfill.Done.{IsMigrated, backfill_document_pii_done}

abbrev old : Text → Text → DocumentRow
old id owner = record {
  id = id;
  company_id = owner;
  mime = bytes "application/pdf";
  byte_size = 3;
  content_enc = bytes "pdf";
  sha256 = [];
  filename = bytes "kvitto.pdf";
  note = [];
  filename_enc = [];
  note_enc = [];
  supplier_invoice_id = none;
  verification_id = none;
  created_at = 10;
}

abbrev nonces : Text → ℕ → Text
nonces id n = bytes "nonce-nonce-"

abbrev of_two : Db
of_two = record open_books {
  companies =
      record {
        id = company;
        dek_wrapped = bytes "nonce-nonce-fedcba9876543210fedcba9876543210";
        locked_through = none;
        profile = no_profile;
      }
      ∷ record { id = bytes "c2"; dek_wrapped = []; locked_through = none; profile = no_profile }
      ∷ [];
  documents =
      old (bytes "d1") (bytes "c2") ∷ old (bytes "d2") company ∷ old (bytes "d3") (bytes "c2") ∷ [];
}

test_backfill :
    (backfill_document_pii env nonces of_two).0 ≡ record { migrated = 1; skipped = 2; error = none }
unfolding backfill_document_pii encrypt_field
test_backfill = refl

abbrev attached : Db
attached = (attach_document_to_supplier env none company (bytes "d2") (bytes "s1") of_two).1

test_delete_attached :
    (delete_document env none company (bytes "d2") attached).0 ≡ failed document_attached
unfolding delete_document attach_document_to_supplier exec_rows log
test_delete_attached = refl

test_delete_document :
    (delete_document env none company (bytes "d2") of_two).1.documents
    ≡ old (bytes "d1") (bytes "c2") ∷ old (bytes "d3") (bytes "c2") ∷ []
unfolding delete_document exec_rows log
test_delete_document = refl

abbrev stored : Db
stored =
    (save_document env none (bytes "d4") (λ n. bytes "nonce-nonce-") 20 company
      (bytes "faktura.pdf") (bytes "application/pdf") (bytes "hej") [] of_two).1

test_get_document_content :
    (get_document_content env company (bytes "d4") stored).0
    ≡ done (record {
      filename = bytes "faktura.pdf";
      mime = bytes "application/pdf";
      content = bytes "hej";
    })
unfolding save_document get_document_content guard from lift exec log pure read encrypt_field
    decrypt_field
test_get_document_content = refl

backfill_document_pii_done_example :
    All (IsMigrated env nonces of_two) (backfill_document_pii env nonces of_two).1.documents
    × ((backfill_document_pii env nonces of_two).0.migrated
          + (backfill_document_pii env nonces of_two).0.skipped
        ≡ length (chosen is_legacy of_two.documents))
    × ((backfill_document_pii env nonces of_two).1
        ≡ record of_two { documents = (backfill_document_pii env nonces of_two).1.documents })
backfill_document_pii_done_example =
    backfill_document_pii_done env nonces of_two (ap (λ (m : Migration). m.error) test_backfill)
