-- ===== src/Ics/Parser.antt =====
-- plugins/ics/src/parser.cpp: the parser with its settings. The clock's reading is an argument.
use divoom_dev.Prelude.{List}
use divoom_dev.Prelude.Int.{ℤ}
use divoom_dev.Prelude.Text.{Text}
use divoom_dev.Ics.Chrono.{Chrono}
use divoom_dev.Ics.Event.{ScheduledEvent}
use divoom_dev.Ics.Pipeline.{parse_calendar_at}
use divoom_dev.Ics.TextUtils.{Outcome}
use divoom_dev.Ics.Window.{CalendarSettings}

pub record CalendarParser : Type 0 where
  pub settings : CalendarSettings

-- calendar_parser(settings)
abbrev pub init : CalendarSettings → CalendarParser
init settings = record { settings = settings }

abbrev pub set_settings : CalendarParser → CalendarSettings → CalendarParser
set_settings p settings = record p { settings = settings }

abbrev pub parse_at : Chrono → CalendarParser → Text → ℤ → Outcome (List ScheduledEvent)
parse_at c p ics_content now = parse_calendar_at c ics_content now p.settings

-- `parse`, with what system_clock::now() returns.
abbrev pub parse : Chrono → CalendarParser → Text → ℤ → Outcome (List ScheduledEvent)
parse c p ics_content now = parse_at c p ics_content now
