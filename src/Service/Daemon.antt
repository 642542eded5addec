-- ===== src/Service/Daemon.antt =====
-- service/src/lifecycle/linux_daemon.cpp: the registration with systemd, the way into the
-- background, and the handler of the signals. Processes, their descriptors and what the system
-- answers are explicit; what the logger is told is left out. Where the source adds two arrays of char,
-- SERVICE_NAME or SERVICE_DESCRIPTION and a literal, the texts are concatenated.
pub mod Processes
pub mod Systemd
pub mod Progress
mod Tests
use divoom_dev.Prelude.{
  ℕ, zero, suc, Bool, true, false, not, ◌&&◌, Option, none, some, List, [], ◌∷◌, ◌++◌,
  if◌then◌else◌, ◌==◌,
}
use divoom_dev.Prelude.Text.{Text, codes, is_empty}
use divoom_dev.Backends.{Store, settings_of}
use divoom_dev.Service.Core as Core
use divoom_dev.Service.Core.{Core}
use divoom_dev.Sqlite.{Engine}
use divoom_dev.Storage.{Json}
use divoom_dev.Service.Setup.{service_name, service_description, data_dir, log_dir}
use divoom_dev.Service.Threads.{State, worker_step}

-- What open_storage returned is not looked at.
abbrev pub create_service_core : {J S R : Type 0} → Json J → Engine S R → Option (Store J S) → Core
create_service_core json db none = Core.init none
create_service_core json db (some store) = Core.init (some (settings_of json db store))

-- SYSTEMD_EXEC_PID is set, and not to the empty text.
unfoldable pub is_running_as_service : Option Text → Bool
is_running_as_service none = false
is_running_as_service (some pid) = not (is_empty pid)

-- geteuid
unfoldable pub check_admin_privileges : ℕ → Bool
check_admin_privileges euid = euid == 0

-- A child process: its command line and what it is given to read.
pub record Command : Type 0 where
  pub line : Text
  pub input : Text

abbrev pub unit_content : Text → Text
unit_content exe_path =
    codes "# Divoom Service - auto-generated\n"
    ++ codes "[Unit]\n"
    ++ codes "Description="
    ++ service_description
    ++ codes "\n"
    ++ codes "After=network.target\n"
    ++ codes "\n"
    ++ codes "[Service]\n"
    ++ codes "Type=simple\n"
    ++ codes "Environment=DIVOOMDEV_DATA_DIR="
    ++ data_dir false
    ++ codes "\n"
    ++ codes "Environment=DIVOOMDEV_LOG_DIR="
    ++ log_dir false
    ++ codes "\n"
    ++ codes "ExecStart="
    ++ exe_path
    ++ codes "\n"
    ++ codes "Restart=on-failure\n"
    ++ codes "RestartSec=5\n"
    ++ codes "StandardOutput=journal\n"
    ++ codes "StandardError=journal\n"
    ++ codes "\n"
    ++ codes "[Install]\n"
    ++ codes "WantedBy=multi-user.target\n"

abbrev pub service_file : Text
service_file = service_name ++ codes ".service"

abbrev pub write_unit : Text → Command
write_unit exe_path = record {
  line = codes "sudo tee /etc/systemd/system/" ++ service_file;
  input = unit_content exe_path;
}

abbrev pub reload_daemon : Command
reload_daemon = record { line = codes "sudo systemctl daemon-reload"; input = [] }

abbrev pub enable_service : Command
enable_service = record { line = codes "sudo systemctl enable " ++ service_file; input = [] }

abbrev pub start_service : Command
start_service = record { line = codes "sudo systemctl start " ++ service_file; input = [] }

pub data Registered : Type 0 where
  registered refused threw : Registered

-- The exit code of a child, after the ones that ran before it, the last first; nothing where the
-- child cannot be made, which throws.
pub record Linux : Type 0 where
  pub current_path : Text
  pub exit_code : Command → List Command → Option ℕ

-- What follows a child that has exited.
abbrev pub if_exited :
    Option ℕ → List Command → List Command × Registered → List Command × Registered
if_exited none ran next = (ran, threw)
if_exited (some zero) ran next = next
if_exited (some (suc n)) ran next = (ran, refused)

module _ (linux : Linux) where
  -- A child runs after those that ran, and the rest if it exits with 0.
  abbrev pub after :
      Command
      → List Command
      → (List Command → List Command × Registered)
      → List Command × Registered
  after c ran next = if_exited (linux.exit_code c ran) (c ∷ ran) (next (c ∷ ran))

  unfoldable pub auto_register_service : List Command × Registered
  auto_register_service = after (write_unit linux.current_path) [] (λ written.
      after reload_daemon written (λ reloaded.
        after enable_service reloaded
          (λ enabled. after start_service enabled (λ started. (started, registered)))))

-- What a descriptor stands for.
pub data File : Type 0 where
  null_input null_output : File
  inherited : ℕ → File

pub data Signal : Type 0 where
  sigterm sigint : Signal

pub record Process : Type 0 where
  -- It is in a session of its own, and leads it.
  pub has_left : Bool
  pub is_leader : Bool
  -- The descriptors from 0 on.
  pub files : List (Option File)
  -- The signals that daemon_signal_handler gets.
  pub handled : List Signal
  pub runs_core : Bool

unfoldable pub close : ℕ → List (Option File) → List (Option File)
close n [] = []
close zero (f ∷ files) = none ∷ files
close (suc n) (f ∷ files) = f ∷ close n files

-- The file gets the lowest descriptor that is free.
unfoldable pub open_lowest : File → List (Option File) → List (Option File)
open_lowest f [] = some f ∷ []
open_lowest f (none ∷ files) = some f ∷ files
open_lowest f (some g ∷ files) = some g ∷ open_lowest f files

pub record Answers : Type 0 where
  pub first_fork : Bool
  pub setsid : Bool
  pub second_fork : Bool
  -- /dev/null can be opened.
  pub opens_null : Bool

abbrev pub open_null : Bool → File → List (Option File) → List (Option File)
open_null opens f files = if opens then open_lowest f files else files

abbrev pub fork : Process → Process
fork p = record p { is_leader = false }

abbrev pub leave : Process → Process
leave p = record p { has_left = true; is_leader = true }

abbrev pub serve : Bool → Process → Process
serve opens p = record p {
  files = open_null opens null_output (
      open_null opens null_output
        (open_null opens null_input (close 2 (close 1 (close 0 p.files)))));
  handled = sigterm ∷ sigint ∷ [];
  runs_core = true;
}

-- The processes that come of it, the one that calls first.
unfoldable pub run_service : Answers → Process → List Process
unfolding close open_lowest
run_service a p =
    let child = fork p in
    let session = leave child in
    if not a.first_fork
    then p ∷ []
    else if not a.setsid
    then p ∷ child ∷ []
    else if not a.second_fork
    then p ∷ session ∷ []
    else p ∷ session ∷ serve a.opens_null (fork session) ∷ []

-- The daemon, with the flag of this file and the loop of `service::run`, whose flags are those of
-- service_state.h.
pub record Daemon : Type 0 where
  pub daemon_running : Bool
  pub service : State

pub data Event : Type 0 where
  signal worker : Event

abbrev pub daemon_signal_handler : Daemon → Daemon
daemon_signal_handler d = record d { daemon_running = false }

module _ (sleeps : ℕ) where
  abbrev pub step : Event → Daemon → Daemon
  step signal d = daemon_signal_handler d
  step worker d = record d { service = worker_step sleeps d.service.worker d.service }

  unfoldable pub run_daemon : List Event → Daemon → Daemon
  run_daemon [] d = d
  run_daemon (e ∷ events) d = run_daemon events (step e d)
