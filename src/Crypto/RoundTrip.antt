-- ===== src/Crypto/RoundTrip.antt =====
-- What internal/crypto/envelope.go seals, it opens.
use pare.Common.{◌<◌, ◌≡◌, refl, ap, true, Text, some, [], ◌∷◌, ◌++◌, length, length-append, arith}
use pare.Crypto.{
  Library, ok, take, drop, open_sealed, encrypt_field, decrypt_field, encrypt_bytes, decrypt_bytes,
  wrap_dek, unwrap_dek, new_dek_from, key_size,
}

take-append : (xs ys : Text) → take (length xs) (xs ++ ys) ≡ xs
take-append [] ys = refl
take-append (x ∷ xs) ys = ap (◌∷◌ x) (take-append xs ys)

drop-append : (xs ys : Text) → drop (length xs) (xs ++ ys) ≡ ys
drop-append [] ys = refl
drop-append (x ∷ xs) ys = drop-append xs ys

-- What the library documents: 32 bytes are an AES key, Open undoes Seal under the same key and
-- nonce, and decoding undoes encoding.
pub record IsLawful (lib : Library) : Type 0 where
  pub aes : (key : Text) → length key ≡ key_size → lib.is_aes_key key ≡ true
  pub gcm : (key nonce p : Text) → lib.open_gcm key nonce (lib.seal_gcm key nonce p) ≡ some p
  pub base64 : (s : Text) → lib.decode_base64 (lib.encode_base64 s) ≡ some s
  -- The nonce has 12 bytes, and only nothing is encoded as nothing.
  pub nonce : 0 < lib.nonce_size
  pub empty : (s : Text) → lib.encode_base64 s ≡ [] → s ≡ []

module _ (lib : Library) (laws : IsLawful lib) where
  decrypt_bytes-append :
      (key nonce p : Text)
      → length key ≡ key_size
      → length nonce ≡ lib.nonce_size
      → decrypt_bytes lib key (nonce ++ lib.seal_gcm key nonce p) ≡ ok p
  unfolding decrypt_bytes
  decrypt_bytes-append key nonce p k n =
      let t = take-append nonce (lib.seal_gcm key nonce p) in
      let d = drop-append nonce (lib.seal_gcm key nonce p) in
      ground
        (arith, laws.aes key, laws.gcm key nonce p, length-append nonce (lib.seal_gcm key nonce p))

  opened :
      (key nonce p : Text)
      → length key ≡ key_size
      → length nonce ≡ lib.nonce_size
      → open_sealed lib key (lib.encode_base64 (nonce ++ lib.seal_gcm key nonce p)) ≡ ok p
  unfolding open_sealed
  opened key nonce p k n =
      let d = decrypt_bytes-append key nonce p k n in
      ground (arith, laws.aes key, laws.base64 (nonce ++ lib.seal_gcm key nonce p))

  -- A field that was encrypted under a key of 32 bytes, whatever the random nonce, is decrypted to
  -- what it was, as bytes too; and a data key that was wrapped is unwrapped to a usable key.
  pub decrypt_field-encrypt_field :
      (dek kek nonce p : Text)
      → length dek ≡ key_size
      → length kek ≡ key_size
      → length nonce ≡ lib.nonce_size
      → ((c : Text) × (encrypt_field lib dek nonce p ≡ ok c) × (decrypt_field lib dek c ≡ ok p))
        × ((c : Text) × (encrypt_bytes lib dek nonce p ≡ ok c) × (decrypt_bytes lib dek c ≡ ok p))
        × ((c : Text) × (wrap_dek lib kek nonce dek ≡ ok c)
            × (unwrap_dek lib kek c ≡ ok dek)
            × (new_dek_from dek ≡ ok dek))
  unfolding encrypt_field decrypt_field encrypt_bytes wrap_dek unwrap_dek new_dek_from
  decrypt_field-encrypt_field dek kek nonce p k q n = (
    (
      lib.encode_base64 (nonce ++ lib.seal_gcm dek nonce p),
      rw (laws.aes dek k) refl,
      opened dek nonce p k n,
    ),
    (
      nonce ++ lib.seal_gcm dek nonce p,
      rw (laws.aes dek k) refl,
      decrypt_bytes-append dek nonce p k n,
    ),
    (
      lib.encode_base64 (nonce ++ lib.seal_gcm kek nonce dek),
      ground (arith, laws.aes kek q),
      opened kek nonce dek q n,
      ground arith,
    ),
  )
