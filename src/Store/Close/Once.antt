-- ===== src/Store/Close/Once.antt =====
-- A year is closed once, and then nothing is posted in it (internal/store/store_fiscalyear.go).
use pare.Common.{◌≡◌, Text, true, some}
use pare.Store.{FiscalYearRow, Company, Db, get_company, find_row}
use pare.Store.Env.{Env}
use pare.Store.Posting.{Posting}
use pare.Store.Close.{has_year_id}

-- The year stands as closed, and the company is locked through its last day.
abbrev pub IsLockedYear : Text → Text → FiscalYearRow → Db → Type 0
IsLockedYear company id fy db =
    (find_row (has_year_id id) db.fiscal_years ≡ some (record fy { closed = true }))
    × ((co : Company) × (get_company company db.companies ≡ some co)
        × (co.locked_through ≡ some fy.ends_on))
