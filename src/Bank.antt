-- ===== src/Bank.antt =====
-- internal/bank/bank.go: the lines of a bank statement, and the amounts in it.
pub mod Amounts
pub mod Csv
mod Examples
use pare.Common.{ℕ, Text}
use pare.Common.Int.{ℤ}

-- A date is a day number, and 0 is the zero time.
pub record Entry : Type 0 where
  pub date : ℕ
  pub amount_ore : ℤ
  pub text : Text
  pub ref : Text
