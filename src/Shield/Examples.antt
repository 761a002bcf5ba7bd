-- ===== src/Shield/Examples.antt =====
-- Concrete sessions of internal/shield, and the theorems about them.
use pare.Common.{
  ℕ, zero, suc, ◌+◌, ◌%◌, ◌==◌, ==_iff, ◌≡◌, refl, Text, bytes, text_eq, true, false, Option, none,
  some, List, [], ◌∷◌, ◌++◌, length, All, if◌then◌else◌, arith,
}
use pare.Crypto.{Library, ok, new_dek_from}
use pare.Crypto.RoundTrip.{IsLawful}
use pare.Store.{ShieldTokenRow}
use pare.Shield.{
  done, State, Source, Shield, Session, new, session, marker, token_id, tokenize, parse_tag,
}
use pare.Shield.Vaults.{
  IsVault, NoneEmpty, HasNoBar, pg_store, mem_store, pg_store-IsVault, stores-IsVault, get_row,
}
use pare.Shield.Unshield.{is_hex, unshield_string}
use pare.Shield.Walk.{
  Value, text, pointer, slice, struct, nil, cons, end, field, shield_struct, masked, alias,
}
use pare.Shield.Resolved.{IsSource, Call, run, unshield_string-tokenize}
use pare.Shield.Masked.{shield_struct-masked}

-- A stand-in for the library, which hides nothing.
abbrev pub plain : Library
plain = record {
  hmac = λ k s. s;
  is_aes_key = λ k. length k == 32;
  nonce_size = 12;
  seal_gcm = λ k n p. p;
  open_gcm = λ k n c. some c;
  encode_base64 = λ s. s;
  decode_base64 = λ s. some s;
}

plain-IsLawful : IsLawful plain
plain-IsLawful = record {
  aes = λ key h. (==_iff (length key) 32).1 h;
  gcm = λ key nonce p. refl;
  base64 = λ s. refl;
  nonce = omega arith;
  empty = λ s h. h;
}

abbrev pub fill : ℕ → ℕ → Text
fill zero d = []
fill (suc n) d = d ∷ fill n d

All-fill : (n d : ℕ) → is_hex d ≡ true → All (λ b. is_hex b ≡ true) (fill n d)
All-fill zero d h = tt
All-fill (suc n) d h = (h, All-fill n d h)

length-fill : (n d : ℕ) → length (fill n d) ≡ n
length-fill zero d = refl
length-fill (suc n) d = omega (arith, length-fill n d)

-- Digits that tell lengths apart.
abbrev pub digits_of : Text → Text
digits_of m = fill 64 (b'0' + length m % 10)

abbrev pub src : Source
src = record { lib = plain; encode_hex = digits_of; random = λ n. bytes "nonce-nonce-" }

pub src-IsSource : IsSource src
src-IsSource = record {
  crypto = plain-IsLawful;
  digits = λ k m. All-fill 64 (b'0' + length m % 10) (ground arith);
  size = λ k m. length-fill 64 (b'0' + length m % 10);
  nonces = λ n. refl;
}

abbrev pub sh : Shield
sh = record {
  dek = bytes "0123456789abcdef0123456789abcdef";
  master = bytes "0123456789abcdef0123456789abcdef";
}

pub sh_new : new sh.master ≡ ok sh
unfolding new new_dek_from
sh_new = refl

abbrev no_tokens : State (List ShieldTokenRow)
no_tokens = record { vault = []; draws = 0 }

abbrev anna : Call
anna = record { id = bytes "chat-1"; kind = bytes "name"; value = bytes "Anna AB" }

abbrev bo : Call
bo = record { id = bytes "chat-2"; kind = bytes "name"; value = bytes "Bo" }

-- What the tokens of the two conversations stand for.
abbrev meaning : Text → Text → Option Text
meaning s t = if text_eq s (bytes "chat-1") then some anna.value else some bo.value

abbrev chat : Session
chat = session src sh anna.id

abbrev before : State (List ShieldTokenRow)
before =
    run src src-IsSource (pg_store 5) (pg_store-IsVault 5) (λ h d. tt) sh_new (bo ∷ []) no_tokens

abbrev annas : Text
annas = token_id src chat.key anna.kind anna.value

unshield_string-tokenize_example :
    let (m, y) = tokenize src (pg_store 5) chat anna.kind anna.value before in
    (m ≡ done (marker anna.kind annas))
    × (unshield_string src
          (pg_store 5)
          chat
          (run src src-IsSource
            (pg_store 5)
            (pg_store-IsVault 5)
            (λ h d. tt)
            sh_new
            (bo ∷ [])
            y).vault
          (bytes "Betalt av " ++ (marker anna.kind annas ++ bytes "!"))
        ≡ (bytes "Betalt av Anna AB!", none))
unfolding text_eq get_row
unshield_string-tokenize_example =
    unshield_string-tokenize src src-IsSource (pg_store 5) (pg_store-IsVault 5) (λ h d. tt) sh_new
      meaning (bo ∷ []) (bo ∷ []) anna (bytes "Betalt av ") (bytes "!") no_tokens tt (λ s t. refl)
      (refl, tt) (refl, tt) refl (λ e. cc) (refl, (refl, (refl, (refl, tt)))) (λ e. cc)
      (omega arith) (omega arith)

-- A result with a customer's name, in a list behind a pointer.
abbrev listed : Value
listed = pointer (
    struct (
      field [] true
        (slice (
          cons
            (struct (
              field (bytes "tokenize,kind=name") true (text (bytes "Anna AB"))
                (field [] true (text (bytes "1250.00")) end)))
            nil))
        end))

hex_HasNoBar : (hex : Text) → All (λ b. is_hex b ≡ true) hex → HasNoBar hex
hex_HasNoBar [] h = tt
hex_HasNoBar (c ∷ hex) (d, h) = (λ e. ground arith, hex_HasNoBar hex h)

token_HasNoBar : (hex : Text) → All (λ b. is_hex b ≡ true) hex → HasNoBar (bytes "tok_" ++ hex)
token_HasNoBar hex h =
    (omega arith, (omega arith, (omega arith, (omega arith, hex_HasNoBar hex h))))

shield_struct-masked_example :
    (shield_struct src mem_store
      (session src sh (bytes "default"))
      listed
      (record { vault = []; draws = 0 })).0
    ≡ done (masked (alias src (session src sh (bytes "default"))) false false listed)
shield_struct-masked_example =
    shield_struct-masked src src-IsSource mem_store (stores-IsVault 0).1 token_HasNoBar sh_new
      (bytes "default") listed (record { vault = []; draws = 0 })

-- The walk puts a marker in the place of the name, and leaves the amount.
name_masked :
    masked (alias src chat) false false listed
    ≡ pointer (
        struct (
          field [] true
            (slice (
              cons
                (struct (
                  field
                    (bytes "tokenize,kind=name")
                    true
                    (text (marker (bytes "name") annas))
                    (field [] true (text (bytes "1250.00")) end)))
                nil))
            end))
unfolding masked parse_tag
name_masked = refl

stores-IsVault_example :
    IsVault (pg_store 7) (λ t. Unit {0}) NoneEmpty × IsVault mem_store HasNoBar (λ m. Unit {0})
stores-IsVault_example = stores-IsVault 7
