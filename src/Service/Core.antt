-- ===== src/Service/Core.antt =====
-- The object of service/src/core/service.cpp: its construction, what it is told, and its cycles one
-- after another.
pub mod Urls
mod Tests
use divoom_dev.Prelude.{ℕ, ◌*◌, Bool, true, Option, none, some, List, [], ◌∷◌, ◌/◌}
use divoom_dev.Prelude.Text.{Text}
use divoom_dev.Ics.Chrono.{Chrono}
use divoom_dev.Ics.Event.{ScheduledEvent}
use divoom_dev.Ics.Manager as Manager
use divoom_dev.Ics.TextUtils.{Outcome, returns, throws}
use divoom_dev.Ics.Window.{CalendarSettings, default_settings}
use divoom_dev.Json.{Nlohmann}
use divoom_dev.Service.Cycle.{
  Settings, Outside, Ended, ended, undefined, get_db_info, process_cycle, run_once,
}
use divoom_dev.Service.Updater as Updater
use divoom_dev.Service.Updater.{Updater, Client}

-- The pointers may be null. The interval is a number of minutes.
pub record Core : Type 0 where
  pub storage : Option Settings
  pub device_updater : Option Updater
  pub calendar_manager : Option Manager.Manager
  pub update_interval : ℕ

-- service(storage)
abbrev pub init : Option Settings → Core
init storage = record {
  storage = storage;
  device_updater = some (Updater.init [] []);
  calendar_manager = none;
  update_interval = 5;
}

-- service(storage, updater, formatter, calendar)
abbrev pub init_with : Option Settings → Option Updater → Option Manager.Manager → Core
init_with storage updater calendar = record (init storage) {
  device_updater = updater;
  calendar_manager = calendar;
}

-- service(other) of a temporary: the new object and what is left of the other.
abbrev pub move_from : Core → Core × Core
move_from other = (
  record {
    storage = other.storage;
    device_updater = other.device_updater;
    calendar_manager = none;
    update_interval = other.update_interval;
  },
  record other { storage = none; device_updater = none },
)

-- operator=, with what is left of the other.
abbrev pub assign : Core → Core → Core × Core
assign core other = (
  record core {
    storage = other.storage;
    device_updater = other.device_updater;
    update_interval = other.update_interval;
  },
  record other { storage = none; device_updater = none },
)

abbrev pub set_update_interval : Core → ℕ → Core
set_update_interval core interval = record core { update_interval = interval }

abbrev pub get_storage : Core → Option Settings
get_storage core = core.storage

-- The rounds of the wait, of 100 ms each.
unfoldable pub wait_rounds : Core → ℕ
wait_rounds core = core.update_interval * 60000 / 100

-- The calendar settings and the manager with which `run` begins.
abbrev pub day_settings : CalendarSettings
day_settings = record default_settings { horizon = 24 }

abbrev pub begin_run : Core → Core
begin_run core = record core {
  calendar_manager =
      some (Manager.set_settings (Manager.init true none default_settings) day_settings);
}

module _ {J S : Type 0} (json : Nlohmann J) (c : Chrono) (tick_ms : ℕ) (client : Client S)
    (hash : Text → ℕ) where
  -- Without a storage get_db_info only logs, and process_cycle follows the null pointer behind the
  -- events.
  abbrev pub without_storage :
      Manager.Manager × Outcome (List ScheduledEvent) → Updater → S → Option (Ended S)
  without_storage (m, returns events) u s = some undefined
  without_storage (m, throws e) u s = some (ended m u s)

  abbrev pub cycle :
      Option Settings → Outside → ℕ → Manager.Manager → Updater → S → Option (Ended S)
  cycle none outside fuel m u s =
      without_storage (Manager.get_next_events c tick_ms outside.calendars outside.now m) u s
  cycle (some settings) outside fuel m u s =
      run_once json c tick_ms client hash settings outside fuel m u s

  -- The cycles of the loop, each with what the storage and the outside world answer then.
  abbrev pub if_ended :
      Option (Ended S) → (Manager.Manager → Updater → S → Option (Ended S)) → Option (Ended S)
  if_ended none rest = none
  if_ended (some undefined) rest = some undefined
  if_ended (some (ended m u s)) rest = rest m u s

  unfoldable pub run_cycles :
      ℕ → List (Option Settings × Outside) → Manager.Manager → Updater → S → Option (Ended S)
  run_cycles fuel [] m u s = some (ended m u s)
  run_cycles fuel ((settings, outside) ∷ rest) m u s =
      if_ended (cycle settings outside fuel m u s) (run_cycles fuel rest)
