-- ===== src/Service/Registration/Start.antt =====
-- A start of the program on Windows: `manager::run` of service/src/lifecycle/manager.cpp with the
-- functions of windows_service.cpp.
use divoom_dev.Prelude.{◌≡◌, ℕ, ◌&&◌, [], ◌∷◌, arith, if◌then◌else◌}
use divoom_dev.Service.Lifecycle.{
  Directory, Core, System, auto_register, exit_success, exit_failure, run,
}
use divoom_dev.Service.Registration.{
  Windows, auto_register_service, check_admin_privileges, is_running_as_service,
}
use divoom_dev.Service.Registration.Handles.{
  is_installed, is_started, open_after-auto_register_service,
}

abbrev pub windows_system : Directory → Directory → Core → Windows → System
windows_system data_dir log_dir core w = record {
  data_dir = data_dir;
  log_dir = log_dir;
  core = core;
  is_running_as_service = is_running_as_service w;
  check_admin_privileges = (check_admin_privileges w).1;
  auto_register_service = (auto_register_service w).1;
}

-- A start that registers the service exits with success just where the service was found or created,
-- and then started or found to run.
run-auto_register :
    (argc : ℕ) (data_dir log_dir : Directory) (core : Core) (w : Windows)
    → (run argc (windows_system data_dir log_dir core w)).0 ≡ auto_register ∷ []
    → (run argc (windows_system data_dir log_dir core w)).1 ≡ (
        if is_installed (auto_register_service w).0 && is_started w (auto_register_service w).0
        then exit_success
        else exit_failure)
unfolding run
run-auto_register argc data_dir log_dir core w h =
    ground (arith, (open_after-auto_register_service w).3)
