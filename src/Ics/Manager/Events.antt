-- ===== src/Ics/Manager/Events.antt =====
-- What event_manager.cpp returns.
use mathlib.Core.List.{Mem}
use mathlib.Core.List.Perm
use mathlib.Core.Logic.Or
use divoom_dev.Prelude.{ℕ, ◌≡◌, true, List, All}
use divoom_dev.Prelude.Int.{ℤ, ◌<ℤ◌, ◌≤ℤ◌}
use divoom_dev.Prelude.Sort.{IsSorted}
use divoom_dev.Prelude.Text.{Text}
use divoom_dev.Ics.Chrono.{Chrono}
use divoom_dev.Ics.Event.{ScheduledEvent, starts_before}
use divoom_dev.Ics.Manager.{Manager, World, load_from_sources, is_next}
use divoom_dev.Ics.TextUtils.{Outcome, returns, throws}
use divoom_dev.Ics.Window.{CalendarSettings, compute_window}

-- In the window of the settings, and not over at `now`.
pub record IsNext (c : Chrono) (now : ℤ) (settings : CalendarSettings) (ev : ScheduledEvent)
    : Type 0 where
  pub opened : (compute_window c now settings).start ≤ℤ ev.start
  pub bounded : ev.start ≤ℤ (compute_window c now settings).deadline
  pub pending : now <ℤ ev.end

-- What no load changes.
record SameSetup (m n : Manager) : Type 0 where
  settings : n.settings ≡ m.settings
  manual : n.manual_events ≡ m.manual_events

module _ (c : Chrono) (tick_ms : ℕ) (w : World) where
  -- What `get_next_events` promises of its answer.
  abbrev pub Promises : ℤ → Manager → Outcome (List ScheduledEvent) → Type 0
  Promises now m (throws e) = (load_from_sources c tick_ms w m).1 ≡ throws e
  Promises now m (returns events) =
      IsSorted starts_before events
      × All (IsNext c now m.settings) events
      × ((ev : ScheduledEvent)
          → Mem ev m.manual_events
          → is_next c now m.settings ev ≡ true
          → Mem ev events)
