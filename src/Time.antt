-- ===== src/Time.antt =====
-- Times as text: the log files' names and the times of htime. A character is its code.
pub mod Decimal
pub mod LogFile
pub mod Parse
pub mod Span
mod Tests
use huicpp.Base.{ℕ}

-- A local time, which the system gives; its numbers are not negative.
pub record Tm : Type 0 where
  pub tm_year : ℕ
  pub tm_mon : ℕ
  pub tm_mday : ℕ
  pub tm_hour : ℕ
  pub tm_min : ℕ
  pub tm_sec : ℕ
