-- ===== src/Ics/Sample.antt =====
-- A machine in the zone UTC with a clock of whole seconds, and a small calendar: test data for the
-- calendar plugin. It formats every time as "%Y%m%dT%H%M%S".
use divoom_dev.Prelude.{
  ℕ, zero, suc, ◌+◌, ◌-◌, ◌*◌, ◌/◌, ◌%◌, true, [], ◌∷◌, ◌++◌, ltb, if◌then◌else◌,
}
use divoom_dev.Prelude.Int.{ℤ, pos, pos_part}
use divoom_dev.Prelude.Text.{Text, codes}
use divoom_dev.Ics.Chrono.{Chrono, Tm, zero_tm}
use divoom_dev.Ics.Window.{CalendarSettings}

-- Days since 1970-01-01 of a date of the Gregorian calendar, months from 0.
abbrev days_of : ℕ → ℕ → ℕ → ℕ
days_of year mon mday =
    let y = if ltb mon 2 then year - 1 else year in
    let m = if ltb mon 2 then mon + 10 else mon - 2 in
    365 * y + y / 4 - y / 100 + y / 400 + (153 * m + 2) / 5 + mday - 1 - 719468

abbrev seconds_of : Tm → ℕ
seconds_of tm =
    let months = pos_part tm.mon in
    let days = days_of (1900 + pos_part tm.year + months / 12) (months % 12) (pos_part tm.mday) in
    ((days * 24 + pos_part tm.hour) * 60 + pos_part tm.min) * 60 + pos_part tm.sec

abbrev date_of : ℕ → Tm
date_of days =
    let z = days + 719468 in
    let doe = z % 146097 in
    let yoe = (doe - doe / 1460 + doe / 36524 - doe / 146096) / 365 in
    let doy = doe + yoe / 100 - (365 * yoe + yoe / 4) in
    let mp = (5 * doy + 2) / 153 in
    let mon = if ltb mp 10 then mp + 2 else mp - 10 in
    let year = yoe + z / 146097 * 400 + (if ltb mon 2 then 1 else 0) in
    record zero_tm {
      year = pos (year - 1900);
      mon = pos mon;
      mday = pos (doy + 1 - (153 * mp + 2) / 5);
      wday = (days + 4) % 7;
    }

abbrev tm_of : ℕ → Tm
tm_of t = record (date_of (t / 86400)) {
  hour = pos (t / 3600 % 24);
  min = pos (t / 60 % 60);
  sec = pos (t % 60);
}

abbrev padded : ℕ → ℕ → Text → Text
padded zero n out = out
padded (suc width) n out = padded width (n / 10) ((48 + n % 10) ∷ out)

abbrev formatted : Tm → Text
formatted tm = padded 4 (1900 + pos_part tm.year) (
    padded 2 (pos_part tm.mon + 1) (
      padded 2 (pos_part tm.mday) (
        b'T'
        ∷ padded 2 (pos_part tm.hour)
            (padded 2 (pos_part tm.min) (padded 2 (pos_part tm.sec) [])))))

abbrev pub utc : Chrono
utc = record {
  second = 1;
  localtime = λ t. tm_of (pos_part t);
  mktime = λ tm. pos (seconds_of tm);
  mkgmtime = λ tm. pos (seconds_of tm);
  strftime = λ size format tm. formatted tm;
}

-- 2023-12-04, 08:00: a Monday.
abbrev pub monday_morning : ℤ
monday_morning = pos 1701676800

abbrev pub two_days : CalendarSettings
two_days = record { horizon = 48; window_from_day_start = true }

-- A daily series whose Tuesday is moved, a single event, and a canceled one.
abbrev pub calendar : Text
calendar =
    codes
      "BEGIN:VEVENT\r\nUID:s\r\nSUMMARY:stand\r\n up\r\nDTSTART:20231201T090000Z\r\nDTEND:20231201T093000Z\r\nRRULE:FREQ=DAILY\r\nEND:VEVENT\r\n"
    ++ (codes
          "BEGIN:VEVENT\r\nUID:s\r\nSUMMARY:late\r\nRECURRENCE-ID:20231205T090000\r\nDTSTART:20231205T110000Z\r\nEND:VEVENT\r\n"
        ++ codes
            "BEGIN:VEVENT\r\nUID:c\r\nSTATUS:CANCELED\r\nDTSTART:20231204T100000Z\r\nEND:VEVENT\r\n")
