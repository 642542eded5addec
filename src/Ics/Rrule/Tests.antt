-- ===== src/Ics/Rrule/Tests.antt =====
-- A rule of calendars, written and read.
use divoom_dev.Prelude.{◌≡◌, some, [], ◌∷◌, arith}
use divoom_dev.Prelude.Decimal.{decimal}
use divoom_dev.Prelude.Text.{codes}
use divoom_dev.Ics.Datetime.Reading.{WallTime, IsWritable}
use divoom_dev.Ics.Event.{Freq}
use divoom_dev.Ics.Rrule.{parse_rrule_data}
use divoom_dev.Ics.Rrule.Reading.{parse_rrule_data-rule_text}
use divoom_dev.Ics.Rrule.Written.{Weekday, Rule, IsRule, rule_data}
use divoom_dev.Ics.Sample.{utc}
use divoom_dev.Ics.TextUtils.{returns}

abbrev christmas : WallTime
christmas = record { year = 2023; mon = 12; mday = 24; hour = 0; min = 0; sec = 0 }

abbrev every_other_week : Rule
every_other_week = record {
  freq = Freq.weekly;
  interval = 2;
  until = some christmas;
  byday = Weekday.tu ∷ Weekday.mo ∷ [];
}

christmas-IsWritable : IsWritable christmas
christmas-IsWritable = record {
  year = omega arith;
  mon = omega arith;
  mday = omega arith;
  hour = omega arith;
  min = omega arith;
  sec = omega arith;
}

every_other_week-IsRule : IsRule every_other_week
every_other_week-IsRule = record { interval = omega arith; until = christmas-IsWritable }

parse_rrule_data-rule_text_example :
    parse_rrule_data utc (codes "FREQ=WEEKLY;INTERVAL=2;UNTIL=20231224T000000Z;BYDAY=TU,MO")
    ≡ returns (rule_data utc every_other_week)
unfolding decimal
parse_rrule_data-rule_text_example =
    parse_rrule_data-rule_text utc every_other_week every_other_week-IsRule
