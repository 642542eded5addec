-- ===== src/Lib.antt =====
-- A model of the core of divoom-dev, a service that shows the next events of iCalendar feeds on
-- Divoom displays, and theorems on it.
--
-- The calendar plugin (plugins/ics) downloads calendars, keeps them in a cache, parses them,
-- expands recurring events and answers with the events of the next hours. Its parts and their
-- files:
--
--   Common              common/include/common/event.h: the event that all plugins share
--   Ics.Event           include/ics/scheduled_event.h, src/detail/raw_event.h and rrule_data
--   Ics.TextUtils       src/detail/text_utils.cpp: trim, to_upper, unescape, unfold (`unfold_text`),
--                       split_ics_line; also std::stoi, std::stoll and std::string::substr
--   Ics.Chrono          the C library's time functions, a parameter of the model
--   Ics.Window          include/ics/settings.h and src/detail/window.cpp
--   Ics.Timezone        src/detail/timezone.cpp
--   Ics.Datetime        src/detail/datetime.cpp
--   Ics.Rrule           parse_rrule_data of src/detail/recurrence.cpp
--   Ics.Recurrence      the rest of src/detail/recurrence.cpp: the expanders
--   Ics.Override        src/detail/override_applier.cpp
--   Ics.Builder         src/detail/event_builder.cpp; parse_alarm is in Ics.Builder.Alarms
--   Ics.Pipeline        src/detail/pipeline.cpp; `select` is parse_calendar_at from its step 4 on;
--                       Ics.Rrule.Written, Ics.Builder.Written and Ics.Pipeline.Written write rules,
--                       events and calendars as RFC 5545 has it; Ics.Builder.Meaning and `raws_of` say
--                       what they mean. They model no code: the repository has no writer
--   Ics.Parser          src/parser.cpp
--   Ics.Cache           src/cache.cpp; save and load are in Ics.Cache.Persist
--   Ics.Manager         src/event_manager.cpp; `load_url` is one round of load_from_sources
--   Ics.HttpSource      src/http_source.cpp
--
-- The client of the Divoom cloud, the service that pushes the text to the devices, and the
-- storage of its settings:
--
--   Divoom.Types        common/include/common and divoom/include/divoom: the data
--   Divoom.Client       divoom/src/handler.hpp (parse_json) and divoom/src/client.cpp (execute)
--   Divoom.Handlers     divoom/src/handlers: the `handle` of each handler
--   Divoom.Commands     divoom/src/handlers/*.h: the structs of the requests and their JSON members
--   Divoom.Requests     divoom/src/handlers and divoom/src/client.cpp: what each call sends
--   Divoom.Display      common/include/common/display_rendered.h, and the example of it in
--                       service/src/core/example_view.hpp
--   Service.Updater     service/src/core/device_updater.cpp, over any client
--   Service.Remote      device_updater over the calls of divoom/src/client.cpp
--   Service.Formatter   service/src/core/event_formatter.cpp
--   Service.Cycle       get_db_info and process_cycle of service/src/core/service.cpp, which join
--                       the calendars, Jira, Jenkins, the storage and the updater
--   Service.Core        the object of service/src/core/service.cpp, and its cycles one after another
--   Service.Threads     the threads of service/src/lifecycle/windows_service.cpp with the loop of
--                       service::run, one access to the shared flags at a time
--   Service.Lifecycle   `run` of service/src/lifecycle/manager.cpp
--   Service.Registration
--                       the registration in service/src/lifecycle/windows_service.cpp
--   Service.Dispatch    run_service and the beginning of service_main in windows_service.cpp
--   Service.Setup       service/src/lifecycle/setup.h
--   Service.Daemon      service/src/lifecycle/linux_daemon.cpp
--   Storage             storage/src/json_backend.cpp: the accounts, the calendar sources, the metadata;
--                       `save` with its calls of the file system is in Storage.Saving
--   Sqlite              storage/src/sqlite_backend.cpp; its texts of SQL are in Sqlite.Statements, and
--                       storage/src/sql_resources.cpp in Sqlite.Resources
--   Backends            the two behind storage/i_storage.h, and open_storage of
--                       storage/src/storage.cpp; `Relational` of Backends.Tables is what SQLite
--                       documents of the statements, and Backends.Listing has the calendar
--                       sources as a quotient that forgets their order
--
-- The plugins whose answers are shown with the events:
--
--   Jenkins.Base64      EncodeBase64 of plugins/jenkins/src/client.cpp
--   Jenkins.Builds      the rest of plugins/jenkins/src/client.cpp
--   Jira                plugins/jira/src/client.cpp
--   Json                what the program uses of nlohmann::json, a parameter of the model
--
-- Paths in the first list that begin with src or include are below plugins/ics. Prelude and its
-- children hold what the parts share: Boolean tests, lists, integers, texts, ordered maps,
-- sorting and decimals. The other child modules hold proofs and are named for what they prove;
-- the modules named Tests hold runs and instances of the theorems.
--
-- A text is the list of its bytes. A time point is a number of clock ticks since the epoch, of
-- which `second` make a second. Class state is a record that the operations take and return;
-- std::map and std::set are lists in ascending order of their keys. An operation that can throw
-- returns an `Outcome`. The readings of the clock are arguments, and what lies outside the
-- repository is a parameter: the C time functions (`Chrono`), the answers of the source and the
-- clock during a load (`World`), the responses of the HTTP library (`ask`, `get`), the JSON
-- library (`Nlohmann`; for the JSON storage `Json`), and a connection to SQLite (`Engine`). The
-- hashes are parameters too. What C++ leaves undefined, or a null pointer that is followed, is a
-- result of its own (`undefined`, `crashed`); an int that is never set is an argument.
--
-- The threads of the Windows service take their steps in the order of a schedule, a list of
-- actors, any list being one: main, the worker, the handler of controls, and the controls that
-- come in. A control waits while the handler is at work on another.
--
-- Loops are recursive on their input, or on the number of rounds that the source itself sets:
-- 365 days, 520 weeks, 24 months, and `retries + 1` requests. No function of the model runs on
-- any other fuel but `update` of the device updater, which in the source calls itself after a
-- login; it returns nothing when the fuel does not suffice for the logins. One round is enough
-- with the real client (Service.Remote). std::sort is a stable insertion sort; the theorems on
-- sorted results state order and membership only, or have no two equivalent items. Durations are
-- exact integers: the overflow of the clock's own representation is not modelled. An int that
-- std::stoi reads is range-checked as there; the shift `1 << n` of the retry delay is exact
-- below 31 and a parameter from there on.
--
-- The daemon's schedule is a list of signals and of steps of the loop. The processes that a fork
-- makes stand in a list, each with its descriptors; the calls of the service control manager are
-- a log, and whether one succeeds is a function of the calls before it.
--
-- Not modelled: logging; the accessors that only read a field; what the dispatcher of the Windows
-- services does besides a call of service_main; the text of the SQL files. The product of a
-- timeout in seconds by 1000 is exact: the overflow of the int is not modelled.
mod Prelude
pub mod Common
pub mod Divoom
pub mod Json
pub mod Jenkins
pub mod Jira
pub mod Ics
pub mod Service
pub mod Storage
pub mod Sqlite
pub mod Backends
