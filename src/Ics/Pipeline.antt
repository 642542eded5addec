-- ===== src/Ics/Pipeline.antt =====
-- plugins/ics/src/detail/pipeline.cpp.
pub mod Collect
pub mod Events
pub mod Reading
pub mod Selection
pub mod Written
pub mod Zones
mod Tests
use divoom_dev.Prelude.{Bool, true, false, ◌&&◌, not, List, [], ◌∷◌, ◌++◌, filter, if◌then◌else◌}
use divoom_dev.Prelude.Int.{ℤ}
use divoom_dev.Prelude.Sort.{sort}
use divoom_dev.Prelude.Text.{Text}
use divoom_dev.Ics.Chrono.{Chrono}
use divoom_dev.Ics.Datetime.{format_local_dt}
use divoom_dev.Ics.Event.{RawEvent, ScheduledEvent, starts_before}
use divoom_dev.Ics.Override.{
  Overrides, build_index, is_overridden, in_window_overrides, is_canceled,
}
use divoom_dev.Ics.Recurrence.{apply_repeat_metadata, expand}
use divoom_dev.Ics.TextUtils.{Outcome, returns, ◌>>=◌, unfold_text}
use divoom_dev.Ics.Timezone.{collect_vtimezones}
use divoom_dev.Ics.Window.{CalendarSettings, TimeWindow, compute_window, in_window}
use Collect.{collect_raw_events}

module _ (c : Chrono) (win : TimeWindow) where
  -- The occurrences of a recurring master event that no override replaces.
  unfoldable pub occurrences : Overrides → RawEvent → List ScheduledEvent
  occurrences overrides r =
      filter (λ inst. not (is_overridden overrides r.ev.uid (format_local_dt c inst.start)))
        (expand c (apply_repeat_metadata r.ev r.rrule) r.rrule win.start win.deadline r.exdates
          r.rrule.freq)

  -- What one round of the loop over the raw events appends to the result.
  unfoldable pub master_events : Overrides → RawEvent → List ScheduledEvent
  master_events overrides r =
      if r.has_recurrence_id
      then []
      else if is_canceled r.ev.status
      then []
      else if r.has_rrule
      then occurrences overrides r
      else if in_window r.ev.start win
      then r.ev ∷ []
      else []

  unfoldable pub all_master_events : Overrides → List RawEvent → List ScheduledEvent
  all_master_events overrides [] = []
  all_master_events overrides (r ∷ raws) =
      master_events overrides r ++ all_master_events overrides raws

  -- Steps 5 to 8, from the raw events to the sorted result.
  unfoldable pub select : List RawEvent → List ScheduledEvent
  select raws =
      sort starts_before (all_master_events (build_index raws) raws ++ in_window_overrides raws win)

unfoldable pub parse_calendar_at :
    Chrono → Text → ℤ → CalendarSettings → Outcome (List ScheduledEvent)
parse_calendar_at c ics_content now settings = do
  raws ← collect_raw_events c (collect_vtimezones ics_content) (unfold_text ics_content)
  returns (select c (compute_window c now settings) raws)
