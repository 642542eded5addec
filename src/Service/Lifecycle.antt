-- ===== src/Service/Lifecycle.antt =====
-- `manager::run` of service/src/lifecycle/manager.cpp: which parts of the program a start runs, and
-- its exit code. What the system answers is the record `System`.
use divoom_dev.Prelude.{
  ℕ, ◌≡◌, Bool, true, false, not, Option, none, some, List, [], ◌∷◌, ltb, if◌then◌else◌, arith,
}

-- A directory: fs::exists and fs::create_directories, which may throw.
pub record Directory : Type 0 where
  pub exists : Option Bool
  pub creates : Option Bool

-- create_service_core makes a core, returns null or throws.
pub data Core : Type 0 where
  made null threw : Core

pub record System : Type 0 where
  pub data_dir : Directory
  pub log_dir : Directory
  pub core : Core
  pub is_running_as_service : Bool
  pub check_admin_privileges : Bool
  pub auto_register_service : Bool

pub data Action : Type 0 where
  run_console auto_register run_service : Action

pub data ExitCode : Type 0 where
  exit_success exit_failure : ExitCode

-- The catch of every exception makes it false.
unfoldable pub ensure_directory : Directory → Bool
ensure_directory d = elim d.exists [
  | none ↦ false
  | some true ↦ true
  | some false ↦ elim d.creates [ none ↦ false | some ok ↦ ok ]
]

abbrev pub is_console_mode : ℕ → Bool
is_console_mode argc = ltb 1 argc

abbrev registered : System → List Action × ExitCode
registered system =
    if system.check_admin_privileges
    then (auto_register ∷ [], if system.auto_register_service then exit_success else exit_failure)
    else ([], exit_failure)

abbrev run_core : ℕ → System → List Action × ExitCode
run_core argc system =
    if is_console_mode argc
    then (run_console ∷ [], exit_success)
    else if not system.is_running_as_service
    then registered system
    else (run_service ∷ [], exit_success)

unfoldable pub run : ℕ → System → List Action × ExitCode
unfolding ensure_directory
run argc system =
    if not (ensure_directory system.data_dir)
    then ([], exit_failure)
    else if not (ensure_directory system.log_dir)
    then ([], exit_failure)
    else elim system.core [
      | threw ↦ ([], exit_failure)
      | null ↦ ([], exit_failure)
      | made ↦ run_core argc system
    ]

-- The service is entered only with both directories, a core, no arguments and the system as the
-- caller, and then the exit code is success.
run-serves :
    (argc : ℕ) (system : System)
    → (run argc system).0 ≡ run_service ∷ []
    → (ensure_directory system.data_dir ≡ true)
      × (ensure_directory system.log_dir ≡ true)
      × (system.core ≡ made)
      × (is_console_mode argc ≡ false)
      × (system.is_running_as_service ≡ true)
      × ((run argc system).1 ≡ exit_success)
unfolding run
run-serves argc system h = ground arith

-- A start that does nothing has failed.
run-idle :
    (argc : ℕ) (system : System) → (run argc system).0 ≡ [] → (run argc system).1 ≡ exit_failure
unfolding run
run-idle argc system h = ground arith
