-- ===== src/Crypto.antt =====
-- internal/crypto/envelope.go: keys that wrap keys, and the encryption of fields.
--
-- AES-GCM, base64, HMAC-SHA256 and the source of random bytes are of Go's library: a record of
-- functions here, and the random bytes are arguments.
pub mod RoundTrip
use pare.Common.{
  ℕ, zero, suc, ◌==◌, Bool, not, true, false, Text, bytes, Option, none, some, List, [], ◌∷◌, ◌++◌,
  length, ltb, if◌then◌else◌,
}

pub data CryptoError : Type 0 where
  key_size_error ciphertext_error library_error : CryptoError

pub data Result (A : Type 0) : Type 0 where
  ok : A → Result A
  err : CryptoError → Result A

abbrev pub key_size : ℕ
key_size = 32

pub record Library : Type 0 where
  pub hmac : Text → Text → Text
  pub is_aes_key : Text → Bool
  pub nonce_size : ℕ
  -- gcm.Seal without its prefix, and gcm.Open.
  pub seal_gcm : Text → Text → Text → Text
  pub open_gcm : Text → Text → Text → Option Text
  pub encode_base64 : Text → Text
  pub decode_base64 : Text → Option Text

module _ {A : Type 0} where
  abbrev pub take : ℕ → List A → List A
  take zero xs = []
  take (suc n) [] = []
  take (suc n) (x ∷ xs) = x ∷ take n xs

  abbrev pub drop : ℕ → List A → List A
  drop zero xs = xs
  drop (suc n) [] = []
  drop (suc n) (x ∷ xs) = drop n xs

-- What a call of the library gives, an error that is passed on included.
abbrev pub or_error : {A : Type 0} → Option A → Result A
or_error none = err library_error
or_error (some a) = ok a

-- NewDEKFrom and NewKEK: the key itself, if it has the length.
unfoldable pub new_dek_from : Text → Result Text
new_dek_from raw = if length raw == key_size then ok raw else err key_size_error

unfoldable pub new_kek : Text → Result Text
new_kek master = if length master == key_size then ok master else err key_size_error

module _ (lib : Library) where
  -- KEK.Fingerprint, with hex.EncodeToString as an argument, and KEK.DeriveKey.
  unfoldable pub fingerprint : (Text → Text) → Text → Text
  fingerprint encode_hex kek = take 16 (encode_hex (lib.hmac kek (bytes "pare/kek/fingerprint/v1")))

  unfoldable pub derive_key : Text → Text → Text
  derive_key kek label = lib.hmac kek label

  -- DecryptBytes, and open behind its base64: the nonce stands in front.
  unfoldable pub decrypt_bytes : Text → Text → Result Text
  decrypt_bytes key raw =
      if not (lib.is_aes_key key)
      then err library_error
      else if ltb (length raw) lib.nonce_size
      then err ciphertext_error
      else or_error (lib.open_gcm key (take lib.nonce_size raw) (drop lib.nonce_size raw))

  -- EncryptBytes; `nonce` are the random bytes.
  unfoldable pub encrypt_bytes : Text → Text → Text → Result Text
  encrypt_bytes key nonce plaintext =
      if not (lib.is_aes_key key)
      then err library_error
      else ok (nonce ++ lib.seal_gcm key nonce plaintext)

  unfoldable pub seal : Text → Text → Text → Result Text
  seal key nonce plaintext =
      if not (lib.is_aes_key key)
      then err library_error
      else ok (lib.encode_base64 (nonce ++ lib.seal_gcm key nonce plaintext))

  unfoldable pub open_sealed : Text → Text → Result Text
  unfolding decrypt_bytes
  open_sealed key encoded =
      if not (lib.is_aes_key key) then err library_error else elim (lib.decode_base64 encoded) [
        | none ↦ err library_error
        | some raw ↦ decrypt_bytes key raw
      ]

  -- KEK.WrapDEK
  unfoldable pub wrap_dek : Text → Text → Text → Result Text
  unfolding seal
  wrap_dek kek nonce dek = if length dek == key_size then seal kek nonce dek else err key_size_error

  -- KEK.UnwrapDEK
  unfoldable pub unwrap_dek : Text → Text → Result Text
  unfolding open_sealed
  unwrap_dek kek wrapped = open_sealed kek wrapped

  -- DEK.EncryptField and DEK.DecryptField
  unfoldable pub encrypt_field : Text → Text → Text → Result Text
  unfolding seal
  encrypt_field dek nonce plaintext = seal dek nonce plaintext

  unfoldable pub decrypt_field : Text → Text → Result Text
  unfolding open_sealed
  decrypt_field dek ciphertext = open_sealed dek ciphertext
