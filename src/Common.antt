-- ===== src/Common.antt =====
-- common/include/common/event.h: the event that the plugins hand to the service.
use divoom_dev.Prelude.{List}
use divoom_dev.Prelude.Int.{ℤ}
use divoom_dev.Prelude.Text.{Text}

-- A time point is its number of ticks since the epoch.
pub record Alarm : Type 0 where
  pub trigger_minutes : ℤ
  pub action : Text
  pub description : Text

pub data EventStatus : Type 0 where
  confirmed tentative canceled : EventStatus

pub record Event : Type 0 where
  pub summary : Text
  pub description : Text
  pub uid : Text
  pub location : Text
  pub sequence : ℤ
  pub start : ℤ
  pub end : ℤ
  pub created : ℤ
  pub last_modified : ℤ
  pub stamp : ℤ
  pub url : Text
  pub organizer : Text
  pub organizer_name : Text
  pub categories : Text
  pub status : EventStatus
  pub alarms : List Alarm
