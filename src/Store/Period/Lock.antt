-- ===== src/Store/Period/Lock.antt =====
-- Nothing is posted in a locked period (internal/store/store_audit.go and store.go).
use pare.Common.{
  ℕ, ◌≤◌, ◌≡◌, refl, Text, Option, none, some, List, [], ◌∷◌, ◌⊎◌, inl, inr, arith, Option-cases,
}
use pare.Ledger.Verification.{Error, validate}
use pare.Store.{Company, Db, failed, get_company, invalid, period_closed}
use pare.Store.Posting.{Posting, is_locked, post_verification, verification_of}
use pare.Store.Period.{set_locked_through}

-- A posting is turned down for what it is, or because the period is closed.
abbrev pub IsClosed : Text → Posting → Db → Type 0
IsClosed new_id p db =
    (post_verification new_id p db ≡ failed period_closed)
    ⊎ ((e : Error) × (post_verification new_id p db ≡ failed (invalid e)))

pub get_company-set_locked_through :
    (id : Text) (through : Option ℕ) (cs : List Company)
    → (get_company id (set_locked_through id through cs) ≡ none)
      ⊎ ((co : Company) × (get_company id (set_locked_through id through cs) ≡ some co)
          × (co.locked_through ≡ through))
unfolding get_company set_locked_through
get_company-set_locked_through id through [] = inl refl
get_company-set_locked_through id through (c ∷ cs) =
    ground (arith, get_company-set_locked_through id through cs)

-- The lock of a company closes its days.
pub locked-IsClosed :
    (company : Text) (co : Company) (through : ℕ) (db : Db) (new_id : Text) (p : Posting)
    → get_company company db.companies ≡ some co
    → co.locked_through ≡ some through
    → p.company_id ≡ company
    → p.date ≤ through
    → IsClosed new_id p db
unfolding post_verification is_locked
locked-IsClosed company co through db new_id p found locked same early =
    elim (Option-cases (validate (verification_of p))) [
      | inr (x, v) ↦ inr (x, ground arith)
      | inl v ↦ inl (ground arith)
    ]
