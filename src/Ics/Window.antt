-- ===== src/Ics/Window.antt =====
-- plugins/ics/include/ics/settings.h and plugins/ics/src/detail/window.cpp.
use divoom_dev.Prelude.{ℕ, ◌*◌, Bool, true, ◌&&◌, not, if◌then◌else◌}
use divoom_dev.Prelude.Int.{ℤ, pos, ◌+ℤ◌, eq_ℤ, leb_ℤ}
use divoom_dev.Ics.Chrono.{Chrono, to_time_t, from_time_t, minus_one}

-- The horizon is a number of hours.
pub record CalendarSettings : Type 0 where
  pub horizon : ℕ
  pub window_from_day_start : Bool

abbrev pub default_settings : CalendarSettings
default_settings = record { horizon = 48; window_from_day_start = true }

pub record TimeWindow : Type 0 where
  pub start : ℤ
  pub deadline : ℤ

-- The midnight of the local day as mktime sees it, or -1.
abbrev day_start_t : Chrono → ℤ → ℤ
day_start_t c now =
    c.mktime (record (c.localtime (to_time_t c now)) { hour = pos 0; min = pos 0; sec = pos 0 })

unfoldable pub compute_window : Chrono → ℤ → CalendarSettings → TimeWindow
unfolding to_time_t from_time_t
compute_window c now settings = record {
  start =
      if settings.window_from_day_start
      then if eq_ℤ (day_start_t c now) minus_one then now else from_time_t c (day_start_t c now)
      else now;
  deadline = now +ℤ pos (settings.horizon * 3600 * c.second);
}

unfoldable pub in_window : ℤ → TimeWindow → Bool
in_window tp win = not (eq_ℤ tp (pos 0)) && (leb_ℤ win.start tp && leb_ℤ tp win.deadline)
