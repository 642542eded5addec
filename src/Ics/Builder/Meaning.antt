-- ===== src/Ics/Builder/Meaning.antt =====
-- What each written property of a VEVENT block, and an entry as a whole, says of the raw event of
-- raw_event.h.
use divoom_dev.Prelude.{true, Option, none, some, List, [], ◌∷◌, ◌++◌, if◌then◌else◌}
use divoom_dev.Prelude.Int.{ℤ, pos, eq_ℤ, ◌-ℤ◌, ◌*ℤ◌}
use divoom_dev.Prelude.Map.{insert_key}
use divoom_dev.Prelude.Text.{Text}
use divoom_dev.Ics.Chrono.{Chrono}
use divoom_dev.Ics.Datetime.{or_epoch}
use divoom_dev.Ics.Datetime.Reading.{tm_of, stamp_time}
use divoom_dev.Ics.Event.{RawEvent, default_raw}
use divoom_dev.Ics.Rrule.Written.{rule_data}
use divoom_dev.Ics.Timezone.{offset_hours, unknown_offset}
use divoom_dev.Ics.Builder.Written.{Moment, Property, Reminder, Entry, alarm_of}

-- The dates join the exceptions of the raw event and of its event.
abbrev pub exclude : RawEvent → List Text → RawEvent
exclude re [] = re
exclude re (d ∷ ds) =
    exclude
      (record re {
        exdates = insert_key d re.exdates;
        ev = record re.ev { exdates = insert_key d re.ev.exdates };
      })
      ds

abbrev pub with_reminder : RawEvent → Option Reminder → RawEvent
with_reminder re none = re
with_reminder re (some r) = record re {
  ev = record re.ev { event = record re.ev.event { alarms = re.ev.alarms ++ alarm_of r ∷ [] } };
}

module _ (c : Chrono) (offsets : List (Text × ℤ)) where
  -- The time that a date-time means. A zone without an offset is taken for local time.
  abbrev pub time_of : Moment → ℤ
  time_of (Moment.utc w) = or_epoch c (c.mkgmtime (tm_of w))
  time_of (Moment.local w) = or_epoch c (c.mktime (tm_of w))
  time_of (Moment.zoned zone w) = or_epoch c (
      if eq_ℤ (offset_hours offsets zone) unknown_offset
      then c.mktime (tm_of w)
      else c.mkgmtime (tm_of w) -ℤ offset_hours offsets zone *ℤ pos 3600)

  -- The raw event with the one thing set that the property says.
  abbrev pub says : RawEvent → Property → RawEvent
  says re (Property.summary s) = record re {
    ev = record re.ev { event = record re.ev.event { summary = s } };
  }
  says re (Property.description s) = record re {
    ev = record re.ev { event = record re.ev.event { description = s } };
  }
  says re (Property.location s) = record re {
    ev = record re.ev { event = record re.ev.event { location = s } };
  }
  says re (Property.categories s) = record re {
    ev = record re.ev { event = record re.ev.event { categories = s } };
  }
  says re (Property.uid s) = record re {
    ev = record re.ev { event = record re.ev.event { uid = s } };
  }
  says re (Property.url s) = record re {
    ev = record re.ev { event = record re.ev.event { url = s } };
  }
  says re (Property.recurrence_id s) = record re { has_recurrence_id = true; recurrence_id = s }
  says re (Property.sequence n) = record re {
    ev = record re.ev { event = record re.ev.event { sequence = pos n } };
  }
  says re (Property.status s) = record re {
    ev = record re.ev { event = record re.ev.event { status = s } };
  }
  says re (Property.begins m) = record re {
    ev = record re.ev { event = record re.ev.event { start = time_of m } };
  }
  says re (Property.ends m) = record re {
    ev = record re.ev { event = record re.ev.event { end = time_of m } };
  }
  says re (Property.created w) = record re {
    ev = record re.ev { event = record re.ev.event { created = stamp_time c w } };
  }
  says re (Property.last_modified w) = record re {
    ev = record re.ev { event = record re.ev.event { last_modified = stamp_time c w } };
  }
  says re (Property.stamp w) = record re {
    ev = record re.ev { event = record re.ev.event { stamp = stamp_time c w } };
  }
  says re (Property.organizer name address) = record re {
    ev = record re.ev { event = record re.ev.event { organizer = address; organizer_name = name } };
  }
  says re (Property.exdates ds) = exclude re ds
  says re (Property.series r) = record re { rrule = rule_data c r; has_rrule = true }

  -- The last property of a name counts.
  abbrev pub says_all : RawEvent → List Property → RawEvent
  says_all re [] = re
  says_all re (p ∷ ps) = says_all (says re p) ps

  -- What an entry says as a whole.
  abbrev pub entry_says : Entry → RawEvent
  entry_says e = with_reminder (says_all default_raw e.properties) e.reminder
