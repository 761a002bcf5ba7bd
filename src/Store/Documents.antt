-- ===== src/Store/Documents.antt =====
-- internal/store/store_document.go: the receipts of a company. The id that a row gets, the random bytes
-- of an encryption and the time of an insert are arguments.
pub mod Backfill
mod Examples
use mathlib.Core.List.{reverse}
use pare.Common.{
  ℕ, zero, suc, ◌+◌, Text, bytes, text_eq, is_empty, not, ◌&&◌, ◌||◌, Bool, true, false, Option,
  none, some, List, [], ◌∷◌, ◌++◌, length, map, if◌then◌else◌,
}
use pare.Crypto.{Result, ok, err, encrypt_field, decrypt_field, encrypt_bytes, decrypt_bytes}
use pare.Store.{
  DocumentRow, Db, find_row, any_row, update_rows, without, StoreError, Outcome, failed, done,
  and_then, no_rows, foreign_company, dek_unusable, empty_document, document_attached,
}
use pare.Store.Env.{Env}
use pare.Store.Audit.{Actor}
use pare.Store.Act.{Act, pure, lift, from, read, guard, exec, exec_rows, log, ◌>>=◌, ◌>>◌}
use pare.Store.Counterparty.{of_crypto, company_dek}

pub record DocumentMeta : Type 0 where
  pub id : Text
  pub filename : Text
  pub mime : Text
  pub byte_size : ℕ
  pub note : Text
  pub attached : Bool
  pub created_at : ℕ

pub record DocumentFile : Type 0 where
  pub filename : Text
  pub mime : Text
  pub content : Text

abbrev pub has_document_id : Text → DocumentRow → Bool
has_document_id id d = text_eq d.id id

-- WHERE id = $1 AND company_id = $2
abbrev is_document : Text → Text → DocumentRow → Bool
is_document company id d = text_eq d.id id && text_eq d.company_id company

abbrev is_some : Option Text → Bool
is_some none = false
is_some (some x) = true

-- supplier_invoice_id IS NULL AND verification_id IS NULL
abbrev is_orphan : DocumentRow → Bool
is_orphan d = not (is_some d.supplier_invoice_id) && not (is_some d.verification_id)

abbrev is_of_supplier : Text → Option Text → Bool
is_of_supplier supplier none = false
is_of_supplier supplier (some id) = text_eq id supplier

-- The rows that a SELECT finds.
unfoldable pub chosen : (DocumentRow → Bool) → List DocumentRow → List DocumentRow
chosen p [] = []
chosen p (d ∷ ds) = if p d then d ∷ chosen p ds else chosen p ds

module _ (env : Env) where
  -- encField
  unfoldable pub enc_field : Text → Text → Text → Outcome Text
  enc_field dek nonce v =
      if is_empty v then done [] else of_crypto (encrypt_field env.lib dek nonce v)

  abbrev or_blank : Result Text → Text
  or_blank (ok b) = b
  or_blank (err e) = []

  -- decField
  unfoldable pub dec_field : Text → Text → Text
  dec_field dek v = if is_empty v then [] else or_blank (decrypt_field env.lib dek v)

  -- Store.SaveDocument
  unfoldable pub save_document :
      Option Actor → Text → (ℕ → Text) → ℕ → Text → Text → Text → Text → Text → Act Text
  unfolding company_dek enc_field encrypt_bytes ◌>>=◌
  save_document actor new_id nonces now company filename mime content note = do
    guard (not (is_empty content)) empty_document
    dek ← from (company_dek env company)
    sealed ← lift (of_crypto (encrypt_bytes env.lib dek (nonces 0) content))
    filename_enc ← lift (enc_field dek (nonces 1) filename)
    note_enc ← lift (enc_field dek (nonces 2) note)
    exec (λ db. record db {
      documents =
          db.documents
          ++ record {
            id = new_id;
            company_id = company;
            mime = mime;
            byte_size = length content;
            content_enc = sealed;
            sha256 = env.sha256_hex content;
            filename = [];
            note = [];
            filename_enc = filename_enc;
            note_enc = note_enc;
            supplier_invoice_id = none;
            verification_id = none;
            created_at = now;
          }
            ∷ [];
    })
    log env.mac actor company (bytes "upload_document") (bytes "document") new_id mime
    pure new_id

  -- Store.GetDocumentContent
  unfoldable pub get_document_content : Text → Text → Act DocumentFile
  unfolding company_dek dec_field decrypt_bytes text_eq ◌>>=◌
  get_document_content company id = do
    row ← read (λ db. find_row (has_document_id id) db.documents) no_rows
    guard (text_eq row.company_id company) foreign_company
    dek ← from (company_dek env company)
    plain ← lift (of_crypto (decrypt_bytes env.lib dek row.content_enc))
    pure (record { filename = dec_field dek row.filename_enc; mime = row.mime; content = plain })

  abbrev meta_of : Text → (DocumentRow → Bool) → DocumentRow → DocumentMeta
  meta_of dek attached d = record {
    id = d.id;
    filename = dec_field dek d.filename_enc;
    mime = d.mime;
    byte_size = d.byte_size;
    note = dec_field dek d.note_enc;
    attached = attached d;
    created_at = d.created_at;
  }

  -- Store.ListDocuments, the newest first: rows are inserted in the order of their time.
  unfoldable pub list_documents : Text → Db → Outcome (List DocumentMeta)
  unfolding company_dek dec_field chosen text_eq
  list_documents company db = and_then (company_dek env company db) (λ dek. done (
      map (meta_of dek (λ d. is_some d.supplier_invoice_id))
        (reverse (chosen (λ d. text_eq d.company_id company) db.documents))))

  -- Store.ListDocumentsForSupplier
  unfoldable pub list_documents_for_supplier : Text → Text → Db → Outcome (List DocumentMeta)
  unfolding company_dek dec_field chosen text_eq
  list_documents_for_supplier company supplier db = and_then (company_dek env company db) (λ dek.
      done (
        map (meta_of dek (λ d. true)) (
          chosen
            (λ d. text_eq d.company_id company && is_of_supplier supplier d.supplier_invoice_id)
            db.documents)))

  -- Store.AttachDocumentToSupplier; the supplier invoice is taken to exist.
  unfoldable pub attach_document_to_supplier : Option Actor → Text → Text → Text → Act (Unit {0})
  unfolding text_eq ◌>>=◌
  attach_document_to_supplier actor company id supplier = do
    exec_rows (λ db. any_row (is_document company id) db.documents) foreign_company
        (λ db. record db {
          documents =
              update_rows (is_document company id)
                (λ d. record d { supplier_invoice_id = some supplier }) db.documents;
        })
    log env.mac actor company (bytes "attach_document") (bytes "supplier_invoice") supplier id

  abbrev is_deletable : Text → Text → DocumentRow → Bool
  is_deletable company id d = is_document company id d && is_orphan d

  -- Store.DeleteDocument
  unfoldable pub delete_document : Option Actor → Text → Text → Act (Unit {0})
  unfolding text_eq ◌>>=◌
  delete_document actor company id = do
    exec_rows (λ db. any_row (is_deletable company id) db.documents) document_attached
        (λ db. record db { documents = without (is_deletable company id) db.documents })
    log env.mac actor company (bytes "delete_document") (bytes "document") id []
