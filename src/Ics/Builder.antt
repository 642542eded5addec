-- ===== src/Ics/Builder.antt =====
-- plugins/ics/src/detail/event_builder.cpp.
pub mod Names
pub mod Lines
pub mod Lists
pub mod Reading
mod Tests
pub mod Alarms
pub mod Content
pub mod Meaning
pub mod Zones
pub mod Written
use divoom_dev.Prelude.{
  ℕ, suc, ◌+◌, true, none, some, List, [], ◌∷◌, ◌++◌, ◌==◌, if◌then◌else◌, take, drop,
}
use divoom_dev.Prelude.Int.{ℤ, pos, ◌+ℤ◌, ◌*ℤ◌}
use divoom_dev.Prelude.Map.{insert_key}
use divoom_dev.Prelude.Text.{Text, codes, text_eq, is_empty, is_digit, find_char, find_text, pieces}
use divoom_dev.Common.{Alarm, EventStatus}
use divoom_dev.Ics.Chrono.{Chrono}
use Alarms.{parse_alarm}
use divoom_dev.Ics.Datetime.{make_datetime_info, parse_ics_datetime, parse_stamp, param_of}
use divoom_dev.Ics.Event.{RawEvent, ScheduledEvent, default_raw}
use divoom_dev.Ics.Rrule.{parse_rrule_data}
use divoom_dev.Ics.TextUtils.{
  Outcome, returns, ◌>>=◌, or_else, stoi, trim, to_upper, unescape, split_ics_line,
}

unfoldable pub status_of : Text → EventStatus
unfolding to_upper text_eq
status_of value =
    let status_upper = to_upper value in
    if text_eq status_upper (codes "CANCELED")
    then EventStatus.canceled
    else if text_eq status_upper (codes "TENTATIVE")
    then EventStatus.tentative
    else EventStatus.confirmed

-- The text behind the last `c`, or all of it.
abbrev pub after_last : ℕ → Text → Text → Text
after_last c best [] = best
after_last c best (d ∷ s) = if d == c then after_last c s s else after_last c best s

unfoldable pub recurrence_key : Text → Text
recurrence_key value = after_last b':' value value

-- `find("mailto:")`
abbrev pub organizer_of : Text → Text
organizer_of value = elim (find_text (codes "mailto:") value) [
  | none ↦ value
  | some i ↦ drop (i + 7) value
]

-- The EXDATE loop: each part that is not blank goes into both sets.
unfoldable pub add_exdates : RawEvent → List Text → RawEvent
unfolding trim insert_key
add_exdates re [] = re
add_exdates re (part ∷ rest) =
    add_exdates
      (let p = trim part in
        if is_empty p then re else record re {
          exdates = insert_key p re.exdates;
          ev = record re.ev { exdates = insert_key p re.ev.exdates };
        })
      rest

abbrev with_event : RawEvent → ScheduledEvent → RawEvent
with_event re ev = record re { ev = ev }

module _ (c : Chrono) (offsets : List (Text × ℤ)) where
  -- The chain of `if (key == …)` of `build`.
  unfoldable pub set_property : RawEvent → Text → Text → Text → Outcome RawEvent
  unfolding text_eq to_upper trim unescape find_char find_text stoi parse_ics_datetime
      make_datetime_info parse_stamp parse_rrule_data status_of recurrence_key add_exdates pieces
  set_property re key params value =
      let ev = re.ev in
      if text_eq key (codes "SUMMARY")
      then returns (record re {
        ev = record ev { event = record ev.event { summary = trim (unescape value) } };
      })
      else if text_eq key (codes "DESCRIPTION")
      then returns (record re {
        ev = record ev { event = record ev.event { description = unescape value } };
      })
      else if text_eq key (codes "UID")
      then returns (record re { ev = record ev { event = record ev.event { uid = value } } })
      else if text_eq key (codes "LOCATION")
      then returns
          (record re { ev = record ev { event = record ev.event { location = unescape value } } })
      else if text_eq key (codes "SEQUENCE")
      then returns (record re {
        ev = record ev { event = record ev.event { sequence = or_else (stoi value) ev.sequence } };
      })
      else if text_eq key (codes "URL")
      then returns (record re { ev = record ev { event = record ev.event { url = value } } })
      else if text_eq key (codes "CATEGORIES")
      then returns
          (record re { ev = record ev { event = record ev.event { categories = unescape value } } })
      else if text_eq key (codes "STATUS")
      then returns
          (record re { ev = record ev { event = record ev.event { status = status_of value } } })
      else if text_eq key (codes "DTSTART")
      then (do
        start ← parse_ics_datetime c offsets (make_datetime_info params value)
        returns (record re { ev = record ev { event = record ev.event { start = start } } }))
      else if text_eq key (codes "DTEND")
      then (do
        end ← parse_ics_datetime c offsets (make_datetime_info params value)
        returns (record re { ev = record ev { event = record ev.event { end = end } } }))
      else if text_eq key (codes "CREATED")
      then returns (record re {
        ev = record ev { event = record ev.event { created = parse_stamp c value } };
      })
      else if text_eq key (codes "LAST-MODIFIED")
      then returns (record re {
        ev = record ev { event = record ev.event { last_modified = parse_stamp c value } };
      })
      else if text_eq key (codes "DTSTAMP")
      then returns
          (record re { ev = record ev { event = record ev.event { stamp = parse_stamp c value } } })
      else if text_eq key (codes "ORGANIZER")
      then returns (record re {
        ev = record ev {
          event = record ev.event {
            organizer = organizer_of value;
            organizer_name = unescape (param_of (codes "CN=") params);
          };
        };
      })
      else if text_eq key (codes "RRULE")
      then (do
        rule ← parse_rrule_data c value
        returns (record re { rrule = rule; has_rrule = true }))
      else if text_eq key (codes "RECURRENCE-ID")
      then returns (record re { has_recurrence_id = true; recurrence_id = recurrence_key value })
      else if text_eq key (codes "EXDATE")
      then returns (add_exdates re (pieces b',' value))
      else returns re

  -- One round of the loop of `build`. An empty line or key names no property.
  unfoldable pub build_line : RawEvent → Text → Outcome RawEvent
  unfolding set_property split_ics_line
  build_line re line =
      let l = split_ics_line (trim line) in
      if is_empty (trim line)
      then returns re
      else if is_empty l.key
      then returns re
      else set_property re l.key l.params l.value

  unfoldable pub build_lines : RawEvent → List Text → Outcome RawEvent
  unfolding build_line
  build_lines re [] = returns re
  build_lines re (line ∷ rest) = build_line re line >>= λ next. build_lines next rest

  unfoldable pub build : List Text → List Text → Outcome RawEvent
  unfolding build_lines parse_alarm
  build content_lines alarm_lines = do
    re ← build_lines default_raw content_lines
    ev ← parse_alarm alarm_lines re.ev
    returns (with_event re ev)
