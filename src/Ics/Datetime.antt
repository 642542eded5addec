-- ===== src/Ics/Datetime.antt =====
-- plugins/ics/src/detail/datetime.cpp.
pub mod Reading
mod Tests
use divoom_dev.Prelude.{
  ℕ, suc, ◌+◌, Bool, true, false, ◌&&◌, not, ◌||◌, none, some, List, [], ◌∷◌, ◌==◌, if◌then◌else◌,
  leb, ltb, length, take, drop, get_last?,
}
use divoom_dev.Prelude.Int.{ℤ, pos, negsuc, ◌-ℤ◌, ◌*ℤ◌, eq_ℤ}
use divoom_dev.Prelude.Text.{Text, codes, is_empty, is_digit, find_char, find_text}
use divoom_dev.Ics.Chrono.{Chrono, Tm, zero_tm, minus_one, to_time_t, from_time_t}
use divoom_dev.Ics.TextUtils.{Outcome, returns, ◌>>=◌, or_else, stoi, substr}
use divoom_dev.Ics.Timezone.{offset_hours, unknown_offset}

pub record DatetimeInfo : Type 0 where
  pub timezone : Text
  pub is_date : Bool
  pub is_utc : Bool
  pub value : Text

-- The text up to the first `c`, or all of it.
abbrev pub until_char : ℕ → Text → Text
until_char c s = elim (find_char c s) [ none ↦ s | some i ↦ take i s ]

-- The value of "NAME=" in a parameter list, up to the next ';'.
abbrev pub param_of : Text → Text → Text
param_of name params = elim (find_text name params) [
  | none ↦ []
  | some i ↦ until_char b';' (drop (i + length name) params)
]

abbrev first_is_digit : Text → Bool
first_is_digit [] = false
first_is_digit (c ∷ s) = is_digit c

abbrev ends_in_z : Text → Bool
ends_in_z s = elim (get_last? s) [ none ↦ false | some c ↦ c == b'Z' ]

abbrev mentions : Text → Text → Bool
mentions p s = elim (find_text p s) [ none ↦ false | some i ↦ true ]

unfoldable pub make_datetime_info : Text → Text → DatetimeInfo
unfolding find_char find_text
make_datetime_info params value =
    let timezone = param_of (codes "TZID=") params in
    let is_utc = ends_in_z value in
    record {
      timezone = timezone;
      is_date =
          mentions (codes "VALUE=DATE") params
          || (is_empty timezone && (not is_utc && ((length value == 8) && first_is_digit value)));
      is_utc = is_utc;
      value = value;
    }

-- An empty info where the line has no ':'.
unfoldable pub parse_datetime_field : Text → DatetimeInfo
unfolding make_datetime_info
parse_datetime_field raw_line = elim (find_char b':' raw_line) [
  | none ↦ record { timezone = []; is_date = false; is_utc = false; value = [] }
  | some i ↦
      make_datetime_info
        (elim (find_char b';' (take i raw_line)) [
          | none ↦ []
          | some j ↦ drop (suc j) (take i raw_line)
        ])
        (drop (suc i) raw_line)
]

abbrev pub stoi_at : ℕ → ℕ → Text → Outcome ℤ
stoi_at i n s = do piece ← substr i n s; stoi piece

-- YYYYMMDD
unfoldable pub read_date : Text → Outcome Tm
unfolding stoi substr ◌-ℤ◌
read_date s = do
  year ← stoi_at 0 4 s
  mon ← stoi_at 4 2 s
  mday ← stoi_at 6 2 s
  returns (record zero_tm { year = year -ℤ pos 1900; mon = mon -ℤ pos 1; mday = mday })

-- YYYYMMDDTHHMMSS, read by position. The byte between date and time is not looked at.
unfoldable pub read_datetime : Text → Outcome Tm
unfolding read_date
read_datetime s = do
  date ← read_date s
  hour ← stoi_at 9 2 s
  min ← stoi_at 11 2 s
  sec ← stoi_at 13 2 s
  returns (record date { hour = hour; min = min; sec = sec })

-- A value of another length leaves the fields 0.
abbrev read_value : DatetimeInfo → Outcome Tm
read_value info =
    if info.is_date && (length info.value == 8)
    then read_date info.value
    else if leb 15 (length info.value)
    then read_datetime info.value
    else returns zero_tm

-- The epoch stands for a time that could not be computed.
abbrev pub or_epoch : Chrono → ℤ → ℤ
or_epoch c t = if eq_ℤ t minus_one then pos 0 else from_time_t c t

-- The wall time `tm` as a time_t: UTC, at a known offset, or in the machine's zone.
abbrev pub absolute : Chrono → List (Text × ℤ) → DatetimeInfo → Tm → ℤ
absolute c offsets info tm =
    if info.is_utc
    then c.mkgmtime tm
    else if not (is_empty info.timezone) && not info.is_date
    then (let off = offset_hours offsets info.timezone in
        if not (eq_ℤ off unknown_offset) then c.mkgmtime tm -ℤ off *ℤ pos 3600 else c.mktime tm)
    else c.mktime tm

unfoldable pub parse_ics_datetime : Chrono → List (Text × ℤ) → DatetimeInfo → Outcome ℤ
unfolding read_datetime from_time_t
parse_ics_datetime c offsets info = do
  tm ← read_value info
  returns (or_epoch c (absolute c offsets info (record tm { isdst = negsuc 0 })))

abbrev stamp_value : Chrono → Text → Outcome ℤ
stamp_value c value = do tm ← read_datetime value; returns (or_epoch c (c.mkgmtime tm))

unfoldable pub parse_stamp : Chrono → Text → ℤ
unfolding read_datetime from_time_t
parse_stamp c value = if ltb (length value) 15 then pos 0 else or_else (stamp_value c value) (pos 0)

unfoldable pub format_local_dt : Chrono → ℤ → Text
format_local_dt c tp = c.strftime 20 (codes "%Y%m%dT%H%M%S") (c.localtime (to_time_t c tp))
