-- ===== src/Store/Documents/Backfill/Done.antt =====
-- What a backfill that answers without an error has done (internal/store/store_document.go).
use mathlib.Core.Path.{subst}
use mathlib.Core.List.{Memᴰ}
use pare.Common.{
  ℕ, suc, ◌+◌, ◌≡◌, ◌⊎◌, refl, sym, ap, ◌∙◌, Text, text_eq, text_eq_iff, text_eq_refl, Bool,
  Bool-cases, Option-cases, true, false, inl, inr, Option, none, some, List, [], ◌∷◌, All, length,
  arith,
}
use pare.Store.{
  DocumentRow, Db, update_rows, StoreError, Outcome, Outcome-cases, failed, done, dek_unusable,
}
use pare.Store.Env.{Env}
use pare.Store.Counterparty.{company_dek}
use pare.Store.Documents.{has_document_id, chosen}
use pare.Store.Documents.Backfill.{
  Progress, Migration, is_dek_unusable, cached, is_legacy, set_columns, set_document_pii_enc,
  returned, skipping, encrypted_pii, migrate, step, backfill_document_pii_rows,
  backfill_document_pii,
}
use pare.Store.Views.{member}

update_rows-All :
    {P Q : DocumentRow → Type 0} (p : DocumentRow → Bool) (f : DocumentRow → DocumentRow)
    → ((d : DocumentRow) → p d ≡ true → Q (f d))
    → ((d : DocumentRow) → p d ≡ false → P d → Q d)
    → (ds : List DocumentRow) → All P ds
    → All Q (update_rows p f ds)
update_rows-All p f a b [] h = tt
update_rows-All p f a b (d ∷ ds) (h, hs) = elim (Bool-cases (p d)) [
  | inl e ↦ rw (e, update_rows) (a d e, update_rows-All p f a b ds hs)
  | inr e ↦ rw (e, update_rows) (b d e h, update_rows-All p f a b ds hs)
]

rows-All :
    {P Q : DocumentRow → Type 0} (f : (d : DocumentRow) → P d → Q d)
    → (ds : List DocumentRow) → All P ds
    → All Q ds
rows-All f [] h = tt
rows-All f (d ∷ ds) (h, hs) = (f d h, rows-All f ds hs)

member-All : (P : Text → Type 0) (c : Text) (cs : List Text) → All P cs → member c cs ≡ true → P c
member-All P c [] h e = absurd (cc)
member-All P c (x ∷ xs) (h, hs) e = elim (Bool-cases (text_eq x c)) [
  | inl k ↦ subst P ((text_eq_iff x c).0 k) h
  | inr n ↦ member-All P c xs hs (ground arith)
]

is_dek_unusable_lem : (e : StoreError) → is_dek_unusable e ≡ true → e ≡ dek_unusable
is_dek_unusable_lem dek_unusable h = refl
is_dek_unusable_lem _ h = absurd (cc)

set_columns-is_legacy : (f n : Text) (d : DocumentRow) → is_legacy (set_columns f n d) ≡ false
set_columns-is_legacy f n d = ground arith

some_not_none : {G : Type 0} (x : StoreError) → Option.some x ≡ none → G
some_not_none x e = absurd (cc)

module _ (env : Env) (dek_for : Text → Outcome Text) (nonces : Text → ℕ → Text) where
  abbrev IsUnusable : Text → Type 0
  IsUnusable c = dek_for c ≡ failed dek_unusable

  -- A document that has nothing left to do, cannot be done, or is still to be done.
  abbrev IsLeft : List DocumentRow → DocumentRow → Type 0
  IsLeft rs d = (is_legacy d ≡ false) ⊎ IsUnusable d.company_id ⊎ Memᴰ d rs

  IsLeft-unusable :
      (r : DocumentRow) (rs : List DocumentRow)
      → IsUnusable r.company_id
      → (d : DocumentRow) → IsLeft (r ∷ rs) d
      → IsLeft rs d
  IsLeft-unusable r rs u d (inl h) = inl h
  IsLeft-unusable r rs u d (inr (inl h)) = inr (inl h)
  IsLeft-unusable r rs u d (inr (inr (Memᴰ.head e))) =
      inr (inl (ap (λ (x : DocumentRow). dek_for x.company_id) e ∙ u))
  IsLeft-unusable r rs u d (inr (inr (Memᴰ.tail m))) = inr (inr m)

  IsLeft-other :
      (r : DocumentRow) (rs : List DocumentRow) (d : DocumentRow)
      → has_document_id r.id d ≡ false
      → IsLeft (r ∷ rs) d
      → IsLeft rs d
  IsLeft-other r rs d n (inl h) = inl h
  IsLeft-other r rs d n (inr (inl h)) = inr (inl h)
  IsLeft-other r rs d n (inr (inr (Memᴰ.head e))) = absurd (cc (text_eq_refl r.id))
  IsLeft-other r rs d n (inr (inr (Memᴰ.tail m))) = inr (inr m)

  abbrev IsStep : Progress → List DocumentRow → Progress → List DocumentRow → Type 0
  IsStep p rs q ds =
      All IsUnusable q.unusable
      × All (IsLeft rs) ds
      × (q.migrated + q.skipped ≡ suc (p.migrated + p.skipped))

  stepped :
      (p p' q : Progress) (rs ds ds' : List DocumentRow)
      → (x : Outcome Progress × List DocumentRow) → x ≡ (done p', ds)
      → x ≡ (done q, ds')
      → IsStep p rs p' ds
      → IsStep p rs q ds'
  stepped p p' q rs ds ds' x e h s =
      let same : p' ≡ q = cc in
      let rows : ds ≡ ds' = cc in
      subst (λ (y : List DocumentRow). IsStep p rs q y) rows
        (subst (λ (z : Progress). IsStep p rs z ds) same s)

  migrate-IsStep :
      (p q : Progress) (r : DocumentRow) (rs ds ds' : List DocumentRow) (o : Outcome (Text × Text))
      → All IsUnusable p.unusable
      → All (IsLeft (r ∷ rs)) ds
      → migrate env dek_for nonces p r o ds ≡ (done q, ds')
      → IsStep p rs q ds'
  unfolding set_document_pii_enc
  migrate-IsStep p q r rs ds ds' (failed e) u l h = absurd (cc)
  migrate-IsStep p q r rs ds ds' (done (f, n)) u l h =
      stepped p (record p { migrated = suc p.migrated }) q rs (set_document_pii_enc r.id f n ds) ds'
        _ refl h
        (
          u,
          update_rows-All (has_document_id r.id) (set_columns f n)
              (λ d e. inl (set_columns-is_legacy f n d)) (IsLeft-other r rs) ds l,
          omega arith,
        )

  step-IsStep :
      (p q : Progress) (r : DocumentRow) (rs ds ds' : List DocumentRow)
      → All IsUnusable p.unusable
      → All (IsLeft (r ∷ rs)) ds
      → step env dek_for nonces p r ds ≡ (done q, ds')
      → IsStep p rs q ds'
  unfolding step
  step-IsStep p q r rs ds ds' u l h = elim (Bool-cases (member r.company_id p.unusable)) [
    | inl m ↦ stepped p (skipping p) q rs ds ds' (step env dek_for nonces p r ds) (rw m refl) h (
      u,
      rows-All (IsLeft-unusable r rs (member-All IsUnusable r.company_id p.unusable u m)) ds l,
      omega arith,
    )
    | inr m ↦ elim (Option-cases (cached r.company_id p.deks)) [
      | inr (dek, c) ↦
          migrate-IsStep p q r rs ds ds' (encrypted_pii env dek_for nonces dek r) u l
            (rw (m, c) at h)
      | inl c ↦ elim (Outcome-cases (dek_for r.company_id)) [
        | inr (dek, k) ↦
            migrate-IsStep (record p { deks = (r.company_id, dek) ∷ p.deks }) q r rs ds ds'
              (encrypted_pii env dek_for nonces dek r) u l (rw (m, c, k) at h)
        | inl (e, k) ↦ elim (Bool-cases (is_dek_unusable e)) [
          | inr n ↦ absurd (cc (rw (m, c, k, n) at h))
          | inl n ↦
              let unusable : IsUnusable r.company_id = k ∙ ap failed (is_dek_unusable_lem e n) in
              stepped p (skipping (record p { unusable = r.company_id ∷ p.unusable })) q rs ds ds'
                (step env dek_for nonces p r ds) (rw (m, c, k, n) refl) h
                ((unusable, u), rows-All (IsLeft-unusable r rs unusable) ds l, omega arith)
        ]
      ]
    ]
  ]

  -- Encrypted, or of a company whose key is unusable.
  abbrev IsDone : DocumentRow → Type 0
  IsDone d = (is_legacy d ≡ false) ⊎ IsUnusable d.company_id

  nothing_left : (d : DocumentRow) → IsLeft [] d → IsDone d
  nothing_left d (inl h) = inl h
  nothing_left d (inr (inl h)) = inr h
  nothing_left d (inr (inr m)) = elim m [ ]

  module _ (r : DocumentRow) (rs : List DocumentRow) (p : Progress) (ds : List DocumentRow) where
    rows_next :
        (q : Progress)
        → (step env dek_for nonces p r ds).0 ≡ done q
        → backfill_document_pii_rows env dek_for nonces (r ∷ rs) p ds
          ≡ backfill_document_pii_rows env dek_for nonces rs q (step env dek_for nonces p r ds).1
    unfolding backfill_document_pii_rows
    rows_next q k = rw (backfill_document_pii_rows, k) refl

    rows_stop :
        (x : StoreError)
        → (step env dek_for nonces p r ds).0 ≡ failed x
        → backfill_document_pii_rows env dek_for nonces (r ∷ rs) p ds
          ≡ (returned p (some x), (step env dek_for nonces p r ds).1)
    unfolding backfill_document_pii_rows step
    rows_stop x k = rw (backfill_document_pii_rows, k) refl

  rows-IsDone :
      (rs : List DocumentRow) (p : Progress) (ds : List DocumentRow)
      → All IsUnusable p.unusable
      → All (IsLeft rs) ds
      → (backfill_document_pii_rows env dek_for nonces rs p ds).0.error ≡ none
      → let (m, ds') = backfill_document_pii_rows env dek_for nonces rs p ds in
        All IsDone ds' × (m.migrated + m.skipped ≡ p.migrated + p.skipped + length rs)
  unfolding backfill_document_pii_rows
  rows-IsDone [] p ds u l e = (rows-All nothing_left ds l, omega arith)
  rows-IsDone (r ∷ rs) p ds u l e = elim (Outcome-cases (step env dek_for nonces p r ds).0) [
    | inl (x, k) ↦
        some_not_none x
          (ap (λ (y : Migration × List DocumentRow). y.0.error) (sym (rows_stop r rs p ds x k)) ∙ e)
    | inr (q, k) ↦
        let ds' = (step env dek_for nonces p r ds).1 in
        let same = rows_next r rs p ds q k in
        let (u', l', n) =
          step-IsStep p q r rs ds ds' u l (ap (λ (o : Outcome Progress). (o, ds')) k) in
        let (h, c) =
          rows-IsDone rs q ds' u' l'
            (ap (λ (x : Migration × List DocumentRow). x.0.error) (sym same) ∙ e) in
        subst
          (λ (x : Migration × List DocumentRow).
            All IsDone x.1
            × (x.0.migrated + x.0.skipped ≡ p.migrated + p.skipped + length (r ∷ rs)))
          (sym same) (h, omega arith)
  ]

  IsLeft-more :
      (r : DocumentRow) (rs : List DocumentRow) (d : DocumentRow) → IsLeft rs d → IsLeft (r ∷ rs) d
  IsLeft-more r rs d (inl h) = inl h
  IsLeft-more r rs d (inr (inl h)) = inr (inl h)
  IsLeft-more r rs d (inr (inr m)) = inr (inr (Memᴰ.tail m))

  All-IsLeft : (ds : List DocumentRow) → All (IsLeft (chosen is_legacy ds)) ds
  unfolding chosen
  All-IsLeft [] = tt
  All-IsLeft (d ∷ ds) = elim (Bool-cases (is_legacy d)) [
    | inr n ↦
        let same : chosen is_legacy (d ∷ ds) ≡ chosen is_legacy ds = rw (n, chosen) refl in
        subst (λ (cs : List DocumentRow). All (IsLeft cs) (d ∷ ds)) (sym same)
          (inl n, All-IsLeft ds)
    | inl y ↦
        let same : chosen is_legacy (d ∷ ds) ≡ d ∷ chosen is_legacy ds = rw (y, chosen) refl in
        subst (λ (cs : List DocumentRow). All (IsLeft cs) (d ∷ ds)) (sym same)
          (
            inr (inr (Memᴰ.head refl)),
            rows-All (IsLeft-more d (chosen is_legacy ds)) ds (All-IsLeft ds),
          )
  ]

module _ (env : Env) (nonces : Text → ℕ → Text) (db : Db) where
  abbrev pub IsMigrated : DocumentRow → Type 0
  IsMigrated d = (is_legacy d ≡ false) ⊎ (company_dek env d.company_id db ≡ failed dek_unusable)

  -- When BackfillDocumentPII answers without an error, every document that still has a file name or a
  -- note in the clear and no encrypted file name is of a company whose key is unusable, whatever
  -- documents it has and in whatever order they stand, and the two counts sum to the number of documents
  -- that were to be migrated. Nothing but documents is written.
  pub backfill_document_pii_done :
      (backfill_document_pii env nonces db).0.error ≡ none
      → let (m, db') = backfill_document_pii env nonces db in
        All IsMigrated db'.documents
        × (m.migrated + m.skipped ≡ length (chosen is_legacy db.documents))
        × (db' ≡ record db { documents = db'.documents })
  unfolding backfill_document_pii
  backfill_document_pii_done e =
      let (h, n) =
        rows-IsDone env (λ c. company_dek env c db) nonces (chosen is_legacy db.documents)
          (record { deks = []; unusable = []; migrated = 0; skipped = 0 }) db.documents tt
          (All-IsLeft env (λ c. company_dek env c db) nonces db.documents) e in
      (h, n ∙ omega arith, refl)
