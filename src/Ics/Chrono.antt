-- ===== src/Ics/Chrono.antt =====
-- <ctime> and std::chrono::system_clock as the calendar plugin uses them. The time zone of the
-- machine and the formatting of times are not in the repository: they are the fields of `Chrono`.
use divoom_dev.Prelude.{ℕ, suc, ◌/◌}
use divoom_dev.Prelude.Int.{ℤ, pos, negsuc, sub_ℕ, ◌*ℤ◌}
use divoom_dev.Prelude.Text.{Text}

-- struct tm
pub record Tm : Type 0 where
  pub year : ℤ
  pub mon : ℤ
  pub mday : ℤ
  pub hour : ℤ
  pub min : ℤ
  pub sec : ℤ
  pub wday : ℕ
  pub isdst : ℤ

pub record Chrono : Type 0 where
  -- ticks of system_clock in a second
  pub second : ℕ
  -- localtime_s, mktime and _mkgmtime; the last two return -1 on failure
  pub localtime : ℤ → Tm
  pub mktime : Tm → ℤ
  pub mkgmtime : Tm → ℤ
  -- strftime into a buffer of the given size
  pub strftime : ℕ → Text → Tm → Text

-- `std::tm tm = {};`
abbrev pub zero_tm : Tm
zero_tm = record {
  year = pos 0;
  mon = pos 0;
  mday = pos 0;
  hour = pos 0;
  min = pos 0;
  sec = pos 0;
  wday = 0;
  isdst = pos 0;
}

-- The value that mktime returns on failure.
abbrev pub minus_one : ℤ
minus_one = negsuc 0

-- duration_cast rounds towards zero.
abbrev pub quotient : ℤ → ℕ → ℤ
quotient (pos n) d = pos (n / d)
quotient (negsuc n) d = sub_ℕ 0 (suc n / d)

unfoldable pub to_time_t : Chrono → ℤ → ℤ
to_time_t c tp = quotient tp c.second

unfoldable pub from_time_t : Chrono → ℤ → ℤ
from_time_t c t = t *ℤ pos c.second
