-- ===== src/Base/Time.antt =====
-- Python's dates and datetimes. A naive datetime is the number of microseconds since
-- 0001-01-01 00:00, the first that Python can represent, and a date the number of whole days.
use Prim.Native.Nat.{ℕ, ◌/◌}

abbrev pub second : ℕ
second = 1000000

abbrev pub minute : ℕ
minute = 60000000

abbrev pub hour : ℕ
hour = 3600000000

abbrev pub day : ℕ
day = 86400000000

-- `datetime.date()`
abbrev pub date_of : ℕ → ℕ
date_of t = t / day

-- A datetime of a request: with no zone, or aware and then known by its instant in UTC, all that
-- the program reads of it.
pub data Datetime : Type 0 where
  naive : ℕ → Datetime
  aware : ℕ → Datetime

abbrev pub naive_utc : Datetime → ℕ
naive_utc (naive t) = t
naive_utc (aware t) = t
