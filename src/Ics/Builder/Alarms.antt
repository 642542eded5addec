-- ===== src/Ics/Builder/Alarms.antt =====
-- `parse_alarm` of plugins/ics/src/detail/event_builder.cpp: the VALARM block of an event.
pub mod Reading
use divoom_dev.Prelude.{
  ℕ, suc, ◌+◌, true, none, some, List, [], ◌∷◌, ◌++◌, ◌==◌, if◌then◌else◌, take, drop,
}
use divoom_dev.Prelude.Int.{ℤ, pos, ◌+ℤ◌, ◌*ℤ◌}
use divoom_dev.Prelude.Map.{insert_key}
use divoom_dev.Prelude.Text.{Text, codes, text_eq, is_empty, is_digit, find_char, find_text, pieces}
use divoom_dev.Common.{Alarm, EventStatus}
use divoom_dev.Ics.Chrono.{Chrono}
use divoom_dev.Ics.Datetime.{make_datetime_info, parse_ics_datetime, parse_stamp, param_of}
use divoom_dev.Ics.Event.{RawEvent, ScheduledEvent, default_raw}
use divoom_dev.Ics.Rrule.{parse_rrule_data}
use divoom_dev.Ics.TextUtils.{
  Outcome, returns, ◌>>=◌, or_else, stoi, trim, to_upper, unescape, split_ics_line,
}

-- The three properties of a VALARM block that are read.
pub record AlarmFields : Type 0 where
  pub trigger_str : Text
  pub action : Text
  pub description : Text

abbrev set_alarm_field : AlarmFields → Text → Text → AlarmFields
set_alarm_field f key value =
    if text_eq key (codes "TRIGGER")
    then record f { trigger_str = value }
    else if text_eq key (codes "ACTION")
    then record f { action = value }
    else if text_eq key (codes "DESCRIPTION")
    then record f { description = value }
    else f

-- One round of the loop over the lines; a line without ':' (an empty one too) is passed over.
unfoldable pub read_alarm_line : AlarmFields → Text → AlarmFields
unfolding trim find_char to_upper unescape text_eq
read_alarm_line f line =
    let trimmed = trim line in
    elim (find_char b':' trimmed) [
      | none ↦ f
      | some i ↦
          set_alarm_field f (to_upper (trim (take i trimmed)))
            (unescape (trim (drop (suc i) trimmed)))
    ]

unfoldable pub read_alarm_lines : AlarmFields → List Text → AlarmFields
unfolding read_alarm_line
read_alarm_lines f [] = f
read_alarm_lines f (line ∷ rest) = read_alarm_lines (read_alarm_line f line) rest

-- A number up to the letter `c` and the text behind it; 0 and the whole text without the letter.
abbrev number_before : ℕ → Text → Outcome (ℤ × Text)
number_before c s = elim (find_char c s) [
  | none ↦ returns (pos 0, s)
  | some i ↦ (do n ← stoi (take i s); returns (n, drop (suc i) s))
]

abbrev leading_minutes : Text → Outcome ℤ
leading_minutes [] = returns (pos 0)
leading_minutes (c ∷ s) = if is_digit c then stoi (c ∷ s) else returns (pos 0)

-- The part of a duration behind its days, in minutes.
abbrev time_minutes : Text → Outcome ℤ
time_minutes duration = elim (find_char b'T' duration) [
  | none ↦ leading_minutes duration
  | some i ↦ (do
    hours_rest ← number_before b'H' (drop (suc i) duration)
    minutes_rest ← number_before b'M' (hours_rest.1)
    returns (hours_rest.0 *ℤ pos 60 +ℤ minutes_rest.0))
]

-- A trigger behind its sign. Without a 'P' the minutes stay 0.
abbrev duration_minutes : Text → Outcome ℤ
duration_minutes [] = returns (pos 0)
duration_minutes (c ∷ s) =
    if c == b'P'
    then (do
      days_rest ← number_before b'D' s
      minutes ← time_minutes (days_rest.1)
      returns (days_rest.0 *ℤ pos 1440 +ℤ minutes))
    else returns (pos 0)

abbrev drop_sign : Text → Text
drop_sign [] = []
drop_sign (c ∷ s) = if c == b'-' then s else c ∷ s

unfoldable pub trigger_minutes : Text → Outcome ℤ
unfolding stoi find_char ◌+ℤ◌ ◌*ℤ◌
trigger_minutes trigger_str = duration_minutes (drop_sign trigger_str)

abbrev alarms_of : AlarmFields → Outcome (List Alarm)
alarms_of f = if is_empty f.trigger_str then returns [] else do
  minutes ← trigger_minutes f.trigger_str
  returns
      (record { trigger_minutes = minutes; action = f.action; description = f.description } ∷ [])

unfoldable pub parse_alarm : List Text → ScheduledEvent → Outcome ScheduledEvent
unfolding read_alarm_lines trigger_minutes
parse_alarm lines ev = do
  alarms ← alarms_of (
      read_alarm_lines (record { trigger_str = []; action = codes "DISPLAY"; description = [] })
        lines)
  returns (record ev { event = record ev.event { alarms = ev.alarms ++ alarms } })
