-- ===== src/Store/Counterparty/Identity.antt =====
-- What CreateCounterparty (internal/store/store.go) encrypts, GetCounterparty decrypts.
use pare.Common.{
  ℕ, ◌≡◌, refl, ap, Text, bytes, text_eq_refl, is_empty, false, Option-cases, inl, inr, Option,
  some, List, [], ◌∷◌, ◌++◌, length, length-append, arith,
}
use pare.Crypto.{key_size, new_dek_from, encrypt_field, seal}
use pare.Crypto.RoundTrip.{IsLawful, decrypt_field-encrypt_field}
use pare.Store.{
  CounterpartyRow, Db, StoreError, Outcome, failed, done, and_then, get_company, find_row, any_row,
}
use pare.Store.Env.{Env}
use pare.Store.Audit.{Actor}
use pare.Store.Act.{exec, ◌>>=◌}
use pare.Store.Act.Steps.{after_guard, after_from, after_lift}
use pare.Store.Act.Same.{log_done}
use pare.Store.Counterparty.{
  Counterparty, Fields, has_id, dek_from_wrapped, company_dek, enc, dec, encrypted, decrypted,
  get_counterparty, row_with, create_counterparty,
}

dek_from_wrapped-length :
    (env : Env) (wrapped dek : Text)
    → dek_from_wrapped env wrapped ≡ done dek
    → length dek ≡ key_size
unfolding dek_from_wrapped new_dek_from
dek_from_wrapped-length env wrapped dek h = ground arith

company_dek-length :
    (env : Env) (company dek : Text) (db : Db)
    → company_dek env company db ≡ done dek
    → length dek ≡ key_size
unfolding company_dek
company_dek-length env company dek db h = elim (Option-cases (get_company company db.companies)) [
  | inl n ↦ absurd (ground arith)
  | inr (co, c) ↦ dek_from_wrapped-length env co.dek_wrapped dek (ground arith)
]

with_done :
    {A B : Type 0} {G : Type 0} (o : Outcome A) (f : A → Outcome B) (b : B)
    → and_then o f ≡ done b
    → ((a : A) → o ≡ done a → f a ≡ done b → G)
    → G
with_done (done a) f b e k = k a refl e
with_done (failed x) f b e k = absurd (cc)

module _ (env : Env) (laws : IsLawful env.lib) (dek : Text) where
  -- The ciphertext of a field is not nothing, which stands for no field.
  sealed_some :
      (nonce v : Text)
      → length nonce ≡ env.lib.nonce_size
      → is_empty (env.lib.encode_base64 (nonce ++ env.lib.seal_gcm dek nonce v)) ≡ false
  sealed_some nonce v n =
      let raw = nonce ++ env.lib.seal_gcm dek nonce v in
      ground (arith, laws.empty raw, laws.nonce, length-append nonce (env.lib.seal_gcm dek nonce v))

  dec-enc :
      (nonce v c : Text)
      → length dek ≡ key_size
      → length nonce ≡ env.lib.nonce_size
      → enc env dek nonce v ≡ done c
      → dec env dek c ≡ done v
  unfolding enc dec encrypt_field seal
  dec-enc nonce v c k n h =
      let ((ct, e, d), _, _) = decrypt_field-encrypt_field env.lib laws dek dek nonce v k k n in
      let some_ = sealed_some nonce v n in ground (arith, laws.aes dek k)

  abbrev identity : Text → Counterparty → Counterparty
  identity new_id cp = record cp { id = new_id; erased = false }

  fields_done :
      (new_id company : Text) (cp : Counterparty) (f : Fields) (c0 c1 c2 c3 c4 c5 : Text)
      → ◌≡◌ {A = Outcome Fields}
          (done (record {
            name = c0;
            org_nr = c1;
            personnummer = c2;
            address = c3;
            iban = c4;
            email = c5;
          }))
          (done f)
      → dec env dek c0 ≡ done cp.name
      → dec env dek c1 ≡ done cp.org_nr
      → dec env dek c2 ≡ done cp.personnummer
      → dec env dek c3 ≡ done cp.address
      → dec env dek c4 ≡ done cp.iban
      → dec env dek c5 ≡ done cp.email
      → decrypted env dek (row_with env new_id company cp.kind f) ≡ done (identity new_id cp)
  unfolding decrypted
  fields_done new_id company cp f c0 c1 c2 c3 c4 c5 h d0 d1 d2 d3 d4 d5 = ground arith

  decrypted-encrypted :
      (nonces : ℕ → Text) (new_id company : Text) (cp : Counterparty) (f : Fields)
      → length dek ≡ key_size
      → ((i : ℕ) → length (nonces i) ≡ env.lib.nonce_size)
      → encrypted env dek nonces cp ≡ done f
      → decrypted env dek (row_with env new_id company cp.kind f) ≡ done (identity new_id cp)
  unfolding encrypted decrypted
  decrypted-encrypted nonces new_id company cp f k n h =
      with_done (enc env dek (nonces 0) cp.name) _ f h (λ c0 e0 h0.
        with_done (enc env dek (nonces 1) cp.org_nr) _ f h0 (λ c1 e1 h1.
          with_done (enc env dek (nonces 2) cp.personnummer) _ f h1 (λ c2 e2 h2.
            with_done (enc env dek (nonces 3) cp.address) _ f h2 (λ c3 e3 h3.
              with_done (enc env dek (nonces 4) cp.iban) _ f h3 (λ c4 e4 h4.
                with_done (enc env dek (nonces 5) cp.email) _ f h4 (λ c5 e5 h5.
                  fields_done new_id company cp f c0 c1 c2 c3 c4 c5 h5
                    (dec-enc (nonces 0) cp.name c0 k (n 0) e0)
                    (dec-enc (nonces 1) cp.org_nr c1 k (n 1) e1)
                    (dec-enc (nonces 2) cp.personnummer c2 k (n 2) e2)
                    (dec-enc (nonces 3) cp.address c3 k (n 3) e3)
                    (dec-enc (nonces 4) cp.iban c4 k (n 4) e4)
                    (dec-enc (nonces 5) cp.email c5 k (n 5) e5)))))))

find_last :
    (id : Text) (rs : List CounterpartyRow) (r : CounterpartyRow)
    → any_row (has_id id) rs ≡ false
    → r.id ≡ id
    → find_row (has_id id) (rs ++ r ∷ []) ≡ some r
find_last id [] r h e = let t = text_eq_refl id in ground arith
find_last id (k ∷ rs) r h e = ground (arith, find_last id rs r)

module _ (env : Env) (laws : IsLawful env.lib) where
  get_new :
      (new_id company dek : Text) (cp : Counterparty) (f : Fields) (db db' : Db)
      → any_row (has_id new_id) db.counterparties ≡ false
      → db'.counterparties ≡ db.counterparties ++ row_with env new_id company cp.kind f ∷ []
      → db'.companies ≡ db.companies
      → company_dek env company db ≡ done dek
      → decrypted env dek (row_with env new_id company cp.kind f)
        ≡ done (record cp { id = new_id; erased = false })
      → get_counterparty env company new_id db' ≡ done (record cp { id = new_id; erased = false })
  unfolding get_counterparty company_dek
  get_new new_id company dek cp f db db' free rows same key d =
      let found =
        find_last new_id db.counterparties (row_with env new_id company cp.kind f) free refl in
      let own = text_eq_refl company in ground arith

  -- With a lawful library and random bytes of the right number: when CreateCounterparty succeeds under
  -- an id that is free, GetCounterparty gives the very name, numbers, addresses and kind that were
  -- stored, marked as not erased.
  pub get_counterparty-create_counterparty :
      (actor : Option Actor) (new_id v : Text) (nonces : ℕ → Text) (company : Text)
      (cp : Counterparty) (db db' : Db)
      → ((i : ℕ) → length (nonces i) ≡ env.lib.nonce_size)
      → any_row (has_id new_id) db.counterparties ≡ false
      → create_counterparty env actor new_id nonces company cp db ≡ (done v, db')
      → get_counterparty env company new_id db' ≡ done (record cp { id = new_id; erased = false })
  unfolding create_counterparty exec ◌>>=◌
  get_counterparty-create_counterparty actor new_id v nonces company cp db db' n free h =
      let P : Outcome Text × Db → Type 0 = λ r.
        r ≡ (done v, db')
        → get_counterparty env company new_id db'
          ≡ done (record cp { id = new_id; erased = false }) in
      let stop : (e : StoreError) → P (failed e, db) = λ e q. absurd (cc) in
      after_guard P db stop _ _ _
        (λ _. after_from P db stop _ _ (λ dek key. after_lift P db stop _ _ (λ f sealed q.
          let k = company_dek-length env company dek db key in
          let eq =
            log_done env.mac actor company (bytes "create_counterparty") (bytes "counterparty")
              new_id cp.kind new_id v _ db' q in
          get_new new_id company dek cp f db db' free (ap (λ d. d.counterparties) eq)
            (ap (λ d. d.companies) eq) key
            (decrypted-encrypted env laws dek nonces new_id company cp f k n sealed))))
        h
