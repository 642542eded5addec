-- ===== src/Ics/Event.antt =====
-- plugins/ics/include/ics/scheduled_event.h, the RRULE data of detail/recurrence.h and the raw
-- events of detail/raw_event.h.
use divoom_dev.Prelude.{ℕ, Bool, false, List, []}
use divoom_dev.Prelude.Int.{ℤ, pos, ltb_ℤ}
use divoom_dev.Prelude.Text.{Text}
use divoom_dev.Common.{Event, EventStatus}

pub data Repeat : Type 0 where
  once daily weekly monthly yearly : Repeat

pub record ScheduledEvent : Type 0 where
  pub event : Event
  pub open event use *
  pub repeat : Repeat
  pub byday_mask : ℕ
  pub recurrence_interval : ℤ
  pub recurrence_end : ℤ
  pub exdates : List Text

pub data Freq : Type 0 where
  daily weekly monthly yearly : Freq

-- rrule_data. The interval is an `int` that only the match of [0-9]+ writes. `until` is the epoch
-- where the rule has no end. `byday` is a set in ascending order, 1 for Monday to 7 for Sunday.
pub record RruleData : Type 0 where
  pub freq : Freq
  pub interval : ℕ
  pub until : ℤ
  pub byday : List ℕ

pub record RawEvent : Type 0 where
  pub ev : ScheduledEvent
  pub rrule : RruleData
  pub has_rrule : Bool
  pub exdates : List Text
  pub has_recurrence_id : Bool
  pub recurrence_id : Text

abbrev pub default_event : ScheduledEvent
default_event = record {
  event = record {
    summary = [];
    description = [];
    uid = [];
    location = [];
    sequence = pos 0;
    start = pos 0;
    end = pos 0;
    created = pos 0;
    last_modified = pos 0;
    stamp = pos 0;
    url = [];
    organizer = [];
    organizer_name = [];
    categories = [];
    status = EventStatus.confirmed;
    alarms = [];
  };
  repeat = Repeat.once;
  byday_mask = 0;
  recurrence_interval = pos 1;
  recurrence_end = pos 0;
  exdates = [];
}

abbrev pub default_rrule : RruleData
default_rrule = record { freq = Freq.daily; interval = 1; until = pos 0; byday = [] }

abbrev pub default_raw : RawEvent
default_raw = record {
  ev = default_event;
  rrule = default_rrule;
  has_rrule = false;
  exdates = [];
  has_recurrence_id = false;
  recurrence_id = [];
}

-- The comparison that the plugin sorts by.
abbrev pub starts_before : ScheduledEvent → ScheduledEvent → Bool
starts_before a b = ltb_ℤ a.start b.start
