-- ===== src/Service/Registration.antt =====
-- `manager::create_service_core`, `auto_register_service`, `check_admin_privileges` and `is_running_as_service` of
-- service/src/lifecycle/windows_service.cpp. The service control manager is a parameter: whether a
-- call succeeds, given the calls before it. What the logger is told is left out.
pub mod Handles
pub mod Start
mod Tests
use divoom_dev.Backends.{Store, settings_of}
use divoom_dev.Service.Core as Core
use divoom_dev.Service.Core.{Core}
use divoom_dev.Sqlite.{Engine}
use divoom_dev.Storage.{Json}
use divoom_dev.Prelude.{
  ℕ, Bool, true, false, ◌||◌, Option, none, some, List, [], ◌∷◌, if◌then◌else◌, ◌==◌,
}

-- Without a storage it throws.
abbrev pub create_service_core :
    {J S R : Type 0} → Json J → Engine S R → Option (Store J S) → Option Core
create_service_core json db none = none
create_service_core json db (some store) = some (Core.init (some (settings_of json db store)))

-- The rights with which a handle is opened.
pub data Access : Type 0 where
  manager_create manager_connect query_config service_start all_access : Access

-- A call, with the handles that it is given, and last the one that it returns where it opens one.
pub data Call : Type 0 where
  open_manager : Access → ℕ → Call
  open_service : ℕ → Access → ℕ → Call
  create_service : ℕ → Access → ℕ → Call
  change_config describe start close : ℕ → Call

-- The calls and whether they succeeded, the last first.
abbrev pub Log : Type 0
Log = List (Call × Bool)

pub record Windows : Type 0 where
  -- ProcessIdToSessionId
  pub session : Option ℕ
  -- The length of the path is neither 0 nor MAX_PATH.
  pub module_file_name : Bool
  pub answers : Call → Log → Bool
  -- GetLastError is ERROR_SERVICE_ALREADY_RUNNING.
  pub already_running : Log → Bool

abbrev pub succeeded : Log → Bool
succeeded [] = false
succeeded ((c, ok) ∷ log) = ok

module _ (w : Windows) where
  abbrev pub ask : Call → Log → Log
  ask c log = (c, w.answers c log) ∷ log

  -- The handles of a scope, closed in turn.
  abbrev pub close_all : List ℕ → Log → Log
  close_all [] log = log
  close_all (h ∷ hs) log = close_all hs (ask (close h) log)

  -- `svc` is 1 and `scm` is 0.
  abbrev pub configure : Log → Log × Bool
  configure managed =
      let opened = ask (open_service 0 query_config 1) managed in
      let created = ask (create_service 0 all_access 1) opened in
      if succeeded opened
      then (close_all (1 ∷ 0 ∷ []) (ask (change_config 1) opened), true)
      else if succeeded created
      then (close_all (1 ∷ 0 ∷ []) (ask (describe 1) created), true)
      else (close_all (0 ∷ []) created, false)

  -- `svc` is 3 and `scm` is 2.
  abbrev pub start_service : Log → Log × Bool
  start_service configured =
      let managed = ask (open_manager manager_connect 2) configured in
      let opened = ask (open_service 2 service_start 3) managed in
      let started = ask (start 3) opened in
      if succeeded managed
      then if succeeded opened
        then (close_all (3 ∷ 2 ∷ []) started, succeeded started || w.already_running started)
        else (close_all (2 ∷ []) opened, false)
      else (managed, false)

  abbrev pub after_configure : Log × Bool → Log × Bool
  after_configure (log, true) = start_service log
  after_configure (log, false) = (log, false)

  unfoldable pub auto_register_service : Log × Bool
  auto_register_service =
      let managed = ask (open_manager manager_create 0) [] in
      if w.module_file_name
      then if succeeded managed then after_configure (configure managed) else (managed, false)
      else ([], false)

  unfoldable pub check_admin_privileges : Log × Bool
  check_admin_privileges =
      let managed = ask (open_manager manager_create 0) [] in
      if succeeded managed then (close_all (0 ∷ []) managed, true) else (managed, false)

  -- Services run in the session 0.
  unfoldable pub is_running_as_service : Bool
  is_running_as_service = elim w.session [ none ↦ false | some id ↦ id == 0 ]
