-- ===== src/Shield/Resolved.antt =====
-- internal/shield: what was tokenized in a session is put back in that session.
use mathlib.Core.Path.{subst}
use pare.Common.{
  ℕ, zero, suc, ◌≡◌, ◌≢◌, ◌⊎◌, inl, inr, refl, ap, sym, ◌∙◌, Text, bytes, text_eq, text_eq_iff,
  is_empty, Bool-cases, true, false, ◌&&◌, Option, none, some, List, [], ◌∷◌, ◌++◌, length,
  length-append, All, if◌then◌else◌, arith,
}
use pare.Crypto.{ok, take, key_size, encrypt_field, decrypt_field, seal, new_dek_from}
use pare.Crypto.RoundTrip.{IsLawful, decrypt_field-encrypt_field}
use pare.Shield.{
  Answer, done, Vault, State, Source, Shield, new, session, marker, token_id, tokenize, resolve,
}
use pare.Shield.Vaults.{IsVault}
use pare.Shield.Unshield.{is_lower, is_hex, HasNoBracket, unshield_string, unshield_string-marker}

-- What Go documents: 32 bytes of a keyed hash make 64 hexadecimal digits, and a nonce has its size.
pub record IsSource (src : Source) : Type 0 where
  pub crypto : IsLawful src.lib
  pub digits : (k m : Text) → All (λ b. is_hex b ≡ true) (src.encode_hex (src.lib.hmac k m))
  pub size : (k m : Text) → length (src.encode_hex (src.lib.hmac k m)) ≡ 64
  pub nonces : (n : ℕ) → length (src.random n) ≡ src.lib.nonce_size

-- One call of Tokenize, in the session that it names.
pub record Call : Type 0 where
  pub id : Text
  pub kind : Text
  pub value : Text

All-take : (P : ℕ → Type 0) (n : ℕ) (xs : Text) → All P xs → All P (take n xs)
All-take P zero xs h = tt
All-take P (suc n) [] h = tt
All-take P (suc n) (x ∷ xs) h = (h.0, All-take P n xs h.1)

take_some : (n m : ℕ) (xs : Text) → length xs ≡ suc m → take (suc n) xs ≢ []
take_some n m [] h = absurd (omega arith)
take_some n m (x ∷ xs) h = cc

is_empty_of_ne : (s : Text) → s ≢ [] → is_empty s ≡ false
is_empty_of_ne [] ne = absurd (ne refl)
is_empty_of_ne (c ∷ s) ne = refl

ne_of_is_empty : (s : Text) → is_empty s ≡ false → s ≢ []
ne_of_is_empty [] e = cc
ne_of_is_empty (c ∷ s) e = cc

module _ (src : Source) (real : IsSource src) where
  -- The ciphertext of a value, which is not nothing and is decrypted to the value.
  sealed :
      (dek nonce p : Text)
      → length dek ≡ key_size
      → length nonce ≡ src.lib.nonce_size
      → (c : Text) × (encrypt_field src.lib dek nonce p ≡ ok c)
        × (decrypt_field src.lib dek c ≡ ok p)
        × (c ≢ [])
  unfolding encrypt_field seal
  sealed dek nonce p k n =
      let ((c, e, d), _, _) =
        decrypt_field-encrypt_field src.lib real.crypto dek dek nonce p k k n in
      (
        c,
        e,
        d,
        ground (
          arith,
          real.crypto.aes dek k,
          real.crypto.nonce,
          real.crypto.empty (nonce ++ src.lib.seal_gcm dek nonce p),
          length-append nonce (src.lib.seal_gcm dek nonce p),
        ),
      )

  pub hex_of : Text → Text → Text → Text
  hex_of key kind value = take 32 (src.encode_hex (src.lib.hmac key (kind ++ 0 ∷ value)))

  pub hex_of-digits : (key kind value : Text) → All (λ b. is_hex b ≡ true) (hex_of key kind value)
  unfolding hex_of
  hex_of-digits key kind value = All-take _ 32 _ (real.digits key (kind ++ 0 ∷ value))

  pub hex_of_some : (key kind value : Text) → hex_of key kind value ≢ []
  unfolding hex_of
  hex_of_some key kind value = take_some 31 63 _ (real.size key (kind ++ 0 ∷ value))

  token_id_lem :
      (key kind value : Text) → token_id src key kind value ≡ bytes "tok_" ++ hex_of key kind value
  unfolding token_id hex_of
  token_id_lem key kind value = refl

  module _ {S : Type 0} (v : Vault S) {IsToken : Text → Type 0} {IsClean : S → Type 0}
      (laws : IsVault v IsToken IsClean)
      (named : (hex : Text) → All (λ b. is_hex b ≡ true) hex → IsToken (bytes "tok_" ++ hex))
      {sh : Shield} (keyed : new sh.master ≡ ok sh) where
    dek_size : length sh.dek ≡ key_size
    unfolding new new_dek_from
    dek_size = ground arith

    token_id-IsToken : (key kind value : Text) → IsToken (token_id src key kind value)
    unfolding token_id hex_of
    token_id-IsToken key kind value = named (hex_of key kind value) (hex_of-digits key kind value)

    -- The token of a call.
    abbrev token_of : Call → Text
    token_of c = token_id src (session src sh c.id).key c.kind c.value

    record Stored (c : Call) (x : State S) : Type 0 where
      ct : Text
      next : S
      opens : decrypt_field src.lib sh.dek ct ≡ ok c.value
      some_ct : ct ≢ []
      put : v.put c.id (token_of c) c.kind ct x.vault ≡ done next
      answer :
          tokenize src v (session src sh c.id) c.kind c.value x
          ≡ (done (marker c.kind (token_of c)), record { vault = next; draws = suc x.draws })

    tokenize-Stored : (c : Call) (x : State S) → c.value ≢ [] → Stored c x
    unfolding tokenize session
    tokenize-Stored c x ne =
        let (ct, e, d, n) =
          sealed sh.dek (src.random x.draws) c.value dek_size (real.nonces x.draws) in
        let (y, p) = laws.total c.id (token_of c) c.kind ct x.vault in
        record {
          ct = ct;
          next = y;
          opens = d;
          some_ct = n;
          put = p;
          answer = rw (is_empty_of_ne c.value ne) (rw e (rw p refl));
        }

    -- A put changes the token that it names alone.
    put_cases :
        (s t k ct s' t' : Text) (x y : S)
        → IsToken t
        → IsToken t'
        → v.put s t k ct x ≡ done y
        → ((s ≡ s') × (t ≡ t')) ⊎ (v.get s' t' y ≡ v.get s' t' x)
    put_cases s t k ct s' t' x y h h' p = elim (Bool-cases (text_eq s s' && text_eq t t')) [
      | inl same ↦ inl (ground (arith, text_eq_iff s s', text_eq_iff t t'))
      | inr differ ↦ inr (
          laws.other s t k ct s' t' x y h h' p
            (λ p q. ground (arith, text_eq_iff s s', text_eq_iff t t')))
    ]

    -- The vault holds something for a token.
    abbrev Held : Text → Text → S → Type 0
    Held s t x = (ct : Text) × (v.get s t x ≡ done ct) × (ct ≢ [])

    module _ (meaning : Text → Text → Option Text) where
      -- What a token of a session stands for does not depend on the call: the values tokenized under
      -- one token are one.
      abbrev pub Agrees : Call → Type 0
      Agrees c = meaning c.id (token_of c) ≡ some c.value

      -- Whatever the vault holds is the ciphertext of what the token stands for.
      record IsTrue (x : S) : Type 0 where
        clean : IsClean x
        opens :
            (s t ct : Text)
            → IsToken t
            → v.get s t x ≡ done ct
            → ct ≢ []
            → (p : Text) × (meaning s t ≡ some p) × (decrypt_field src.lib sh.dek ct ≡ ok p)

      put-IsTrue :
          (c : Call) (ct : Text) (x y : S)
          → Agrees c
          → decrypt_field src.lib sh.dek ct ≡ ok c.value
          → ct ≢ []
          → v.put c.id (token_of c) c.kind ct x ≡ done y
          → IsTrue x
          → IsTrue y
      put-IsTrue c ct x y a d n p inv = record {
        clean = laws.clean c.id (token_of c) c.kind ct x y n inv.clean p;
        opens = λ s t ct' h g n'.
            elim (put_cases c.id (token_of c) c.kind ct s t x y (token_id-IsToken _ c.kind c.value)
              h p) [
                | inl (es, et) ↦ elim (laws.same c.id (token_of c) c.kind ct x y inv.clean p) [
                  | inl new_ct ↦ (c.value, cc, cc)
                  | inr (old, some_old, before, after) ↦ inv.opens s t ct' h (cc) n'
                ]
                | inr same ↦ inv.opens s t ct' h (sym same ∙ g) n'
              ];
      }

      put-Held :
          (c : Call) (ct s t : Text) (x y : S)
          → IsToken t
          → ct ≢ []
          → v.put c.id (token_of c) c.kind ct x ≡ done y
          → IsTrue x
          → Held s t x
          → Held s t y
      put-Held c ct s t x y h n p inv (ct', g, n') =
          elim (put_cases c.id (token_of c) c.kind ct s t x y (token_id-IsToken _ c.kind c.value) h
            p) [
              | inl (es, et) ↦ elim (laws.same c.id (token_of c) c.kind ct x y inv.clean p) [
                | inl new_ct ↦ (ct, cc, n)
                | inr (old, some_old, before, after) ↦ (old, cc, some_old)
              ]
              | inr same ↦ (ct', same ∙ g, n')
            ]

      put-Held_self :
          (c : Call) (ct : Text) (x y : S)
          → ct ≢ []
          → v.put c.id (token_of c) c.kind ct x ≡ done y
          → IsTrue x
          → Held c.id (token_of c) y
      put-Held_self c ct x y n p inv =
          elim (laws.same c.id (token_of c) c.kind ct x y inv.clean p) [
            | inl new_ct ↦ (ct, new_ct, n)
            | inr (old, some_old, before, after) ↦ (old, after, some_old)
          ]

      -- After a call and any others, the token of the call resolves to its value.
      resolve-Held :
          (c : Call) (x : S)
          → Agrees c
          → IsTrue x
          → Held c.id (token_of c) x
          → resolve src v (session src sh c.id) (token_of c) x ≡ done c.value
      unfolding resolve session
      resolve-Held c x a inv (ct, g, n) =
          let (p, m, d) = inv.opens c.id (token_of c) ct (token_id-IsToken _ c.kind c.value) g n in
          let e : p ≡ c.value = cc in rw g (rw (is_empty_of_ne ct n) (rw d (ap done e)))

    -- Session.Tokenize for each call, an error being the caller's.
    abbrev pub run : List Call → State S → State S
    run [] x = x
    run (c ∷ cs) x = run cs (tokenize src v (session src sh c.id) c.kind c.value x).1

    tokenize_cases :
        (P : State S → Type 0) (c : Call) (x : State S)
        → P x
        → (Stored c x → P (tokenize src v (session src sh c.id) c.kind c.value x).1)
        → P (tokenize src v (session src sh c.id) c.kind c.value x).1
    unfolding tokenize
    tokenize_cases P c x h k = elim (Bool-cases (is_empty c.value)) [
      | inl nothing ↦ rw nothing h
      | inr e ↦ k (tokenize-Stored c x (ne_of_is_empty c.value e))
    ]

    module _ (meaning : Text → Text → Option Text) where
      -- The invariant of a run, and that a token stays in the vault.
      run_keeps :
          (cs : List Call) (x : State S)
          → All (Agrees meaning) cs
          → IsTrue meaning x.vault
          → IsTrue meaning (run cs x).vault
            × ((s t : Text) → IsToken t → Held s t x.vault → Held s t (run cs x).vault)
      run_keeps [] x a inv = (inv, λ s t h g. g)
      run_keeps (c ∷ cs) x a inv =
          let next = (tokenize src v (session src sh c.id) c.kind c.value x).1 in
          let (inv', kept) = step in
          let (last, later) = run_keeps cs next a.1 inv' in
          (last, λ s t h g. later s t h (kept s t h g))
        where
          Keeps : State S → Type 0
          Keeps y =
              IsTrue meaning y.vault
              × ((s t : Text) → IsToken t → Held s t x.vault → Held s t y.vault)

          step : Keeps (tokenize src v (session src sh c.id) c.kind c.value x).1
          step =
              tokenize_cases Keeps c x (inv, λ s t h g. g)
                λ st.
                  let e = ap (λ (r : Answer Text × State S). r.1) st.answer in
                  subst Keeps (sym e) (
                    put-IsTrue meaning c st.ct x.vault st.next a.0 st.opens st.some_ct st.put inv,
                    λ s t h g.
                        put-Held meaning c st.ct s t x.vault st.next h st.some_ct st.put inv g,
                  )

      empty-IsTrue : (x : S) → IsClean x → ((s t : Text) → v.get s t x ≡ done []) → IsTrue meaning x
      empty-IsTrue x c e = record { clean = c; opens = λ s t ct h g n. absurd (n (cc (e s t))) }

      -- In a vault that starts clean and empty, with the sessions' values such that no two of them share
      -- a token of a session, a value that is not empty, of a kind that is not empty and in lower case,
      -- gets its marker, whatever was tokenized before. Whatever is tokenized after that, UnshieldString
      -- of its session reads this marker, between two texts that have no bracket, as the value between
      -- the same two texts, without an error.
      pub unshield_string-tokenize :
          (earlier later : List Call) (c : Call) (before after : Text) (x : State S)
          → IsClean x.vault
          → ((s t : Text) → v.get s t x.vault ≡ done [])
          → All (Agrees meaning) earlier
          → All (Agrees meaning) later
          → Agrees meaning c
          → c.value ≢ []
          → All (λ b. is_lower b ≡ true) c.kind
          → c.kind ≢ []
          → HasNoBracket before
          → HasNoBracket after
          → let s = session src sh c.id in
            let (m, y) = tokenize src v s c.kind c.value (run earlier x) in
            (m ≡ done (marker c.kind (token_of c)))
            × (unshield_string src v s
                  (run later y).vault
                  (before ++ (marker c.kind (token_of c) ++ after))
                ≡ (before ++ (c.value ++ after), none))
      unshield_string-tokenize earlier later c before after x clean empty ae al a ne lower nk nb
            na =
          let s = session src sh c.id in
          let x' = run earlier x in
          let (inv, _) = run_keeps earlier x ae (empty-IsTrue x.vault clean empty) in
          let st = tokenize-Stored c x' ne in
          let inv' = put-IsTrue meaning c st.ct x'.vault st.next a st.opens st.some_ct st.put inv in
          let y : State S = record { vault = st.next; draws = suc x'.draws } in
          let (last, later_) = run_keeps later y al inv' in
          let held =
            later_ c.id (token_of c) (token_id-IsToken s.key c.kind c.value)
              (put-Held_self meaning c st.ct x'.vault st.next st.some_ct st.put inv) in
          let found = resolve-Held meaning c (run later y).vault a last held in
          let shown = token_id_lem s.key c.kind c.value in
          rw st.answer (
            refl,
            rw shown (
                unshield_string-marker src v s (run later y).vault c.kind
                  (hex_of s.key c.kind c.value) before after c.value nb na lower nk
                  (hex_of-digits s.key c.kind c.value) (hex_of_some s.key c.kind c.value) ne
                  (rw shown at found)),
          )

    tokenize_nothing :
        (c : Call) (x : State S)
        → is_empty c.value ≡ true
        → tokenize src v (session src sh c.id) c.kind c.value x ≡ (done [], x)
    unfolding tokenize
    tokenize_nothing c x e = rw e refl

    -- Tokenize always answers, with nothing for nothing.
    pub tokenize_done :
        (id kind value : Text) (x : State S)
        → (tokenize src v (session src sh id) kind value x).0
          ≡ done (
              if is_empty value
              then []
              else marker kind (token_id src (session src sh id).key kind value))
    tokenize_done id kind value x = elim (Bool-cases (is_empty value)) [
      | inl nothing ↦ rw nothing (
          ap (λ (r : Answer Text × State S). r.0)
            (tokenize_nothing (record { id = id; kind = kind; value = value }) x nothing))
      | inr e ↦
          let st =
            tokenize-Stored (record { id = id; kind = kind; value = value }) x
              (ne_of_is_empty value e) in
          rw e (ap (λ (r : Answer Text × State S). r.0) st.answer)
    ]
