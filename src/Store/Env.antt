-- ===== src/Store/Env.antt =====
-- What the store (internal/store) takes from outside: the cryptographic library, and package time.
use pare.Common.{ℕ, Text}
use pare.Crypto.{Library}

pub record Env : Type 0 where
  pub lib : Library
  -- The key from PARE_MASTER_KEY.
  pub kek : Text
  -- The hex encoding of the HMAC-SHA256 under the key of the audit log.
  pub mac : Text → Text
  -- The format 2006-01-02, and time.Time.Year.
  pub format_date : ℕ → Text
  pub year_of : ℕ → ℕ
  -- The hex encoding of the SHA-256.
  pub sha256_hex : Text → Text
