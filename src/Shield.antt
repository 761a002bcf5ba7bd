-- ===== src/Shield.antt =====
-- internal/shield: pseudonyms for the identities that cross to an AI assistant.
--
-- Shield here is shield.go and the sessions of session.go; Shield.Vaults the stores of store_pg.go and
-- session.go, Shield.Walk the walk over a result by reflection, Shield.Unshield the way back. What is
-- proved of them stands in Shield.Vaults, Shield.Masked and Shield.Resolved.
pub mod Vaults
pub mod Walk
pub mod Unshield
pub mod Resolved
pub mod Masked
pub mod Examples
use pare.Common.{
  ℕ, suc, Text, bytes, text_eq, is_empty, has_prefix, Bool, true, false, not, ◌||◌, Option, none,
  some, List, [], ◌∷◌, ◌++◌, length, ◌==◌, if◌then◌else◌,
}
use pare.Crypto.{
  CryptoError, Result, ok, err, Library, take, drop, new_dek_from, encrypt_field, decrypt_field,
}

pub data ShieldError : Type 0 where
  sealing : CryptoError → ShieldError
  vault_failed : ShieldError

pub data Answer {ℓ} (A : Type ℓ) : Type ℓ where
  failed : ShieldError → Answer A
  done : A → Answer A

-- Store: the tokens of each session, with the ciphertext of what they stand for.
pub record Vault (S : Type 0) : Type 0 where
  pub put : Text → Text → Text → Text → S → Answer S
  -- Nothing if the token is absent.
  pub get : Text → Text → S → Answer Text

-- The vault, and the number of random nonces drawn.
pub record State (S : Type 0) : Type 0 where
  pub vault : S
  pub draws : ℕ

-- What the package takes from Go's library: the cryptography, hex.EncodeToString and crypto/rand.
pub record Source : Type 0 where
  pub lib : Library
  pub encode_hex : Text → Text
  pub random : ℕ → Text

-- Shield without its store; `master` is a copy of the key that the data key is made of.
pub record Shield : Type 0 where
  pub dek : Text
  pub master : Text

-- New
unfoldable pub new : Text → Result Shield
unfolding new_dek_from
new master = elim (new_dek_from master) [
  | err e ↦ err e
  | ok dek ↦ ok (record { dek = dek; master = master })
]

pub record Session : Type 0 where
  pub shield : Shield
  pub id : Text
  pub key : Text

-- marker
unfoldable pub marker : Text → Text → Text
marker kind token = bytes "[shield:" ++ (kind ++ (b':' ∷ (token ++ b']' ∷ [])))

-- strings.Split(tag, ","): the field in progress stands in `field`, reversed by appending.
unfoldable pub split_comma : Text → Text → List Text
split_comma field [] = field ∷ []
split_comma field (c ∷ s) =
    let next = split_comma [] s in
    let more = split_comma (field ++ c ∷ []) s in if c == b',' then field ∷ next else more

-- The loop of parseTag over the parts after the first.
unfoldable pub kind_of : List Text → Option Text
kind_of [] = none
kind_of (p ∷ parts) =
    if has_prefix p (bytes "kind=") then some (drop (length (bytes "kind=")) p) else kind_of parts

abbrev tagged : List Text → Option Text
tagged [] = none
tagged (p ∷ parts) = if not (text_eq p (bytes "tokenize")) then none else kind_of parts

-- parseTag
unfoldable pub parse_tag : Text → Option Text
unfolding split_comma kind_of text_eq
parse_tag tag =
    if is_empty tag || text_eq tag (bytes "-") then none else tagged (split_comma [] tag)

module _ (src : Source) where
  -- deriveSessionKey
  unfoldable pub derive_session_key : Text → Text → Text
  derive_session_key master id = src.lib.hmac master (bytes "pare/shield/session/" ++ id)

  -- Shield.Session
  unfoldable pub session : Shield → Text → Session
  unfolding derive_session_key
  session sh id = record { shield = sh; id = id; key = derive_session_key sh.master id }

  -- tokenID
  unfoldable pub token_id : Text → Text → Text → Text
  token_id key kind value =
      bytes "tok_" ++ take 32 (src.encode_hex (src.lib.hmac key (kind ++ 0 ∷ value)))

  module _ {S : Type 0} (v : Vault S) where
    abbrev stored : Text → State S → Answer S → Answer Text × State S
    stored m x (failed e) = (failed e, x)
    stored m x (done y) = (done m, record x { vault = y })

    abbrev put_sealed : Session → Text → Text → State S → Result Text → Answer Text × State S
    put_sealed s kind tok x (err e) = (failed (sealing e), x)
    put_sealed s kind tok x (ok ct) = stored (marker kind tok) x (v.put s.id tok kind ct x.vault)

    -- Session.Tokenize; the encryption draws a nonce.
    unfoldable pub tokenize : Session → Text → Text → State S → Answer Text × State S
    unfolding token_id encrypt_field
    tokenize s kind value x =
        if is_empty value
        then (done [], x)
        else put_sealed s kind (token_id s.key kind value) (record x { draws = suc x.draws })
            (encrypt_field src.lib s.shield.dek (src.random x.draws) value)

    abbrev opened : Result Text → Answer Text
    opened (err e) = failed (sealing e)
    opened (ok p) = done p

    abbrev read_back : Session → Answer Text → Answer Text
    read_back s (failed e) = failed e
    read_back s (done ct) =
        if is_empty ct then done [] else opened (decrypt_field src.lib s.shield.dek ct)

    -- Session.Resolve
    unfoldable pub resolve : Session → Text → S → Answer Text
    unfolding decrypt_field
    resolve s token x = read_back s (v.get s.id token x)
