-- ===== src/Store/Undo.antt =====
-- internal/store/store_audit.go: UndoVerification, the correction of a posted verifikat.
pub mod Possible
use pare.Common.{ℕ, Text, bytes, text_eq, Bool, Option, none, some, List, [], ◌∷◌, ◌++◌}
use pare.Common.Int.{pos}
use pare.Ledger.Verification.{Line, Verification, id, reverse}
use pare.Store.{VerificationRow, Db, StoreError, Outcome, Pool, find_row, no_rows, foreign_company}
use pare.Store.Env.{Env}
use pare.Store.Audit.{Actor}
use pare.Store.Posting.{Posting}
use pare.Store.Act.{Act, pure, read, transaction, guard, post, log, ◌>>=◌, ◌>>◌}

-- The verifikat as internal/ledger reads it.
abbrev pub original : VerificationRow → Verification
original ver = record {
  series = ver.series;
  number = pos ver.number;
  date = 0;
  description = [];
  lines = ver.lines;
  reversal_of = [];
}

abbrev pub correction : VerificationRow → ℕ → Verification
correction ver today =
    reverse (original ver) (bytes "R") (pos 0) today (bytes "Ångra " ++ id (original ver))

-- What UndoVerification posts.
abbrev pub correction_posting : Text → VerificationRow → ℕ → Posting
correction_posting company ver today = record {
  company_id = company;
  series = bytes "R";
  date = today;
  description = (correction ver today).description;
  lines = (correction ver today).lines;
  reversal_of = ver.id;
}

module _ (env : Env) (actor : Option Actor) (pool : Pool) where
  -- Store.UndoVerification; the correction gets `new_id`, and is dated `today`.
  unfoldable pub undo_verification : Text → Text → Text → ℕ → Act Text
  unfolding text_eq reverse id ◌>>=◌
  undo_verification new_id company ver_id today = do
    ver ← read (λ db. find_row (λ v. text_eq v.id ver_id) db.verifications) no_rows
    guard (text_eq ver.company_id company) foreign_company
    transaction pool (do
      post new_id (correction_posting company ver today)
      log env.mac actor company (bytes "undo") (bytes "verification") ver_id
          (bytes "rättelse " ++ new_id)
      pure new_id)
