-- ===== src/Ics/Rrule/Written.antt =====
-- How a recurrence rule is written in RFC 5545, and the rrule_data of recurrence.h that it says. The
-- parser of recurrence.cpp has no writer in the repository.
use divoom_dev.Prelude.{ℕ, ◌^◌, ◌<◌, Option, none, some, List, [], ◌∷◌, ◌++◌, map}
use divoom_dev.Prelude.Decimal.{decimal}
use divoom_dev.Prelude.Int.{ℤ, pos}
use divoom_dev.Prelude.Text.{Text, codes}
use divoom_dev.Ics.Chrono.{Chrono}
use divoom_dev.Ics.Datetime.Reading.{WallTime, IsWritable, written, stamp_time}
use divoom_dev.Ics.Event.{Freq, RruleData}
use divoom_dev.Ics.Rrule.{insert_day}
use divoom_dev.Ics.TextUtils.Commas.{comma_list}

pub data Weekday : Type 0 where
  mo tu we th fr sa su : Weekday

pub record Rule : Type 0 where
  pub freq : Freq
  pub interval : ℕ
  pub until : Option WallTime
  pub byday : List Weekday

abbrev pub freq_text : Freq → Text
freq_text Freq.daily = codes "DAILY"
freq_text Freq.weekly = codes "WEEKLY"
freq_text Freq.monthly = codes "MONTHLY"
freq_text Freq.yearly = codes "YEARLY"

abbrev pub day_text : Weekday → Text
day_text Weekday.mo = codes "MO"
day_text Weekday.tu = codes "TU"
day_text Weekday.we = codes "WE"
day_text Weekday.th = codes "TH"
day_text Weekday.fr = codes "FR"
day_text Weekday.sa = codes "SA"
day_text Weekday.su = codes "SU"

-- ISO 8601: Monday is 1.
abbrev pub iso_number : Weekday → ℕ
iso_number Weekday.mo = 1
iso_number Weekday.tu = 2
iso_number Weekday.we = 3
iso_number Weekday.th = 4
iso_number Weekday.fr = 5
iso_number Weekday.sa = 6
iso_number Weekday.su = 7

abbrev pub byday_text : List Weekday → Text
byday_text [] = []
byday_text (d ∷ ds) = codes ";BYDAY=" ++ comma_list (map day_text (d ∷ ds))

abbrev pub until_text : Option WallTime → Text → Text
until_text none rest = rest
until_text (some w) rest = codes ";UNTIL=" ++ written w (b'Z' ∷ rest)

abbrev pub rule_text : Rule → Text
rule_text r =
    codes "FREQ="
    ++ (freq_text r.freq
        ++ (codes ";INTERVAL=" ++ (decimal r.interval ++ until_text r.until (byday_text r.byday))))

abbrev pub IsUntil : Option WallTime → Type 0
IsUntil none = Unit
IsUntil (some w) = IsWritable w

-- The interval fits into an int.
pub record IsRule (r : Rule) : Type 0 where
  pub interval : r.interval < 2 ^ 31
  pub until : IsUntil r.until

abbrev pub days_of : List ℕ → List Weekday → List ℕ
days_of days [] = days
days_of days (d ∷ ds) = days_of (insert_day (iso_number d) days) ds

-- The epoch stands for a rule without an end.
abbrev pub until_time : Chrono → Option WallTime → ℤ
until_time c none = pos 0
until_time c (some w) = stamp_time c w

abbrev pub rule_data : Chrono → Rule → RruleData
rule_data c r = record {
  freq = r.freq;
  interval = r.interval;
  until = until_time c r.until;
  byday = days_of [] r.byday;
}
