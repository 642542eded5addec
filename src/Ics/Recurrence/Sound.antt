-- ===== src/Ics/Recurrence/Sound.antt =====
-- What holds of every event that an expander of recurrence.cpp appends.
use divoom_dev.Prelude.{◌≡◌, false, List}
use divoom_dev.Prelude.Int.{ℤ, ◌≤ℤ◌}
use divoom_dev.Prelude.Text.{Text}
use divoom_dev.Ics.Chrono.{Chrono}
use divoom_dev.Ics.Event.{Freq, RruleData, ScheduledEvent}
use divoom_dev.Ics.Recurrence.{is_excluded, instance_at, past_until}

-- Only the monthly expander does not look at the start of the window.
abbrev pub Opened : Freq → ℤ → ℤ → Type 0
Opened Freq.monthly window_start start = Unit {0}
Opened Freq.daily window_start start = window_start ≤ℤ start
Opened Freq.weekly window_start start = window_start ≤ℤ start
Opened Freq.yearly window_start start = window_start ≤ℤ start

module _ (c : Chrono) (base : ScheduledEvent) (rule : RruleData) (window_start deadline : ℤ)
    (exdates : List Text) where
  -- An instance of the base event, inside the window and the rule, and not excluded.
  pub record IsOccurrence (freq : Freq) (ev : ScheduledEvent) : Type 0 where
    pub moved : ev ≡ instance_at base ev.start
    pub opened : Opened freq window_start ev.start
    pub bounded : ev.start ≤ℤ deadline
    pub lasts : past_until rule ev.start ≡ false
    pub kept : is_excluded c ev.start exdates ≡ false
