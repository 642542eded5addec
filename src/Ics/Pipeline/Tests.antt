-- ===== src/Ics/Pipeline/Tests.antt =====
-- The selection, on the raw events of a series and of one override.
use divoom_dev.Prelude.{◌≡◌, refl, true, false, List, [], ◌∷◌, All, any}
use divoom_dev.Prelude.Int.{ℤ, pos}
use divoom_dev.Prelude.Map.{insert}
use divoom_dev.Prelude.Text.{codes, pieces}
use divoom_dev.Ics.Datetime.{format_local_dt}
use divoom_dev.Ics.Event.{RawEvent, ScheduledEvent, default_raw, default_event}
use divoom_dev.Ics.Override.{build_index}
use divoom_dev.Ics.Override.Index.{overrides}
use divoom_dev.Ics.TextUtils.{trim, strip_cr}
use divoom_dev.Ics.Timezone.{collect_vtimezones, parse_tzoffset}
use divoom_dev.Ics.Pipeline.{occurrences, select}
use divoom_dev.Ics.Pipeline.Selection.{occurrences-not_overridden, select_complete}
use divoom_dev.Ics.Sample.{utc, monday_morning}
use divoom_dev.Ics.Window.{TimeWindow, in_window}
use mathlib.Core.List.{Mem, mem-cons_self, mem-cons_of_mem}

abbrev event_at : ℤ → ScheduledEvent
event_at start = record default_event {
  event = record default_event.event { uid = codes "s"; start = start; end = start };
}

-- A daily series from nine on 2023-12-04.
abbrev series : RawEvent
series = record default_raw { ev = event_at (pos 1701680400); has_rrule = true }

-- Its Tuesday, moved to eleven.
abbrev moved : RawEvent
moved = record default_raw {
  ev = event_at (pos 1701774000);
  has_recurrence_id = true;
  recurrence_id = codes "20231205T090000";
}

abbrev raws : List RawEvent
raws = series ∷ moved ∷ []

abbrev win : TimeWindow
win = record { start = monday_morning; deadline = pos 1701849600 }

moved-Mem : Mem moved raws
moved-Mem = mem-cons_of_mem series mem-cons_self

occurrences-not_overridden_example :
    All
      (λ inst. any (overrides (codes "s") (format_local_dt utc inst.start)) raws ≡ false)
      (occurrences utc win (build_index raws) series)
occurrences-not_overridden_example = occurrences-not_overridden utc win raws series

select_complete_example : Mem moved.ev (select utc win raws)
unfolding in_window
select_complete_example = select_complete utc win raws moved moved-Mem refl refl refl

-- The scan reads the lines before they are unfolded.
folded_zone_runs :
    collect_vtimezones (
      codes
        "BEGIN:VTIMEZONE\r\nTZID:A\r\n B\r\nBEGIN:STANDARD\r\nTZOFFSETTO:+0300\r\nEND:STANDARD\r\nEND:VTIMEZONE\r\n")
    ≡ (codes "A", pos 3) ∷ []
unfolding collect_vtimezones pieces trim strip_cr parse_tzoffset insert
folded_zone_runs = refl
