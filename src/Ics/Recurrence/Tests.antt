-- ===== src/Ics/Recurrence/Tests.antt =====
-- The expanders on small series.
use divoom_dev.Prelude.{◌≡◌, List, [], ◌∷◌, map, filter}
use divoom_dev.Prelude.Int.{ℤ, pos}
use divoom_dev.Prelude.Text.{Text, codes}
use divoom_dev.Ics.Event.{Freq, RruleData, ScheduledEvent, default_event, default_rrule}
use divoom_dev.Ics.Recurrence.{instance_at, daily_start, expand_daily}
use divoom_dev.Ics.Recurrence.Loop.{range}
use divoom_dev.Ics.Recurrence.Reference.{counts, expand_daily-eq-filter}
use divoom_dev.Ics.Sample.{utc, monday_morning}

-- Half an hour, from nine on 2023-12-04.
abbrev standup : ScheduledEvent
standup = record default_event {
  event = record default_event.event {
    summary = codes "standup";
    start = pos 1701680400;
    end = pos 1701682200;
  };
}

abbrev every_second_day : RruleData
every_second_day = record default_rrule { interval = 2 }

abbrev monday_and_thursday : RruleData
monday_and_thursday = record default_rrule { freq = Freq.weekly; byday = 1 ∷ 4 ∷ [] }

-- A week after monday_morning.
abbrev next_monday : ℤ
next_monday = pos 1702281600

abbrev skipped : List Text
skipped = codes "20231206T090000" ∷ []

expand_daily-eq-filter_example :
    expand_daily utc standup every_second_day monday_morning next_monday skipped
    ≡ map
        (λ i. instance_at standup (daily_start utc standup every_second_day i))
        (filter
          (λ i.
            counts utc every_second_day monday_morning next_monday skipped
              (daily_start utc standup every_second_day i))
          (range 0 365))
expand_daily-eq-filter_example =
    expand_daily-eq-filter utc standup every_second_day monday_morning next_monday skipped
