-- ===== src/Ics/Pipeline/Reading.antt =====
-- What `parse_calendar` of pipeline.cpp makes of a written calendar.
use divoom_dev.Prelude.{List}
use divoom_dev.Prelude.Text.{Text}
use divoom_dev.Ics.Chrono.{Chrono}
