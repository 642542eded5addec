-- ===== src/Service/Registration/Tests.antt =====
-- A system where the service exists already, and its configuration is not changed.
use divoom_dev.Prelude.{◌≡◌, refl, Bool, true, false, ◌&&◌, some, [], ◌∷◌}
use divoom_dev.Service.Registration.{
  Windows, Call, change_config, auto_register_service, check_admin_privileges,
}
use divoom_dev.Service.Registration.Handles.{
  open_after, lacking, changes, is_installed, is_started, rights_of, without,
  open_after-auto_register_service,
}

abbrev answer : Call → Bool
answer (change_config h) = false
answer c = true

abbrev windows : Windows
windows = record {
  session = some 1;
  module_file_name = true;
  answers = λ c log. answer c;
  already_running = λ log. false;
}

open_after-auto_register_service_example :
    (open_after (auto_register_service windows).0 ≡ some [])
    × (open_after (check_admin_privileges windows).0 ≡ some [])
    × (lacking (auto_register_service windows).0 ≡ changes (auto_register_service windows).0)
    × ((auto_register_service windows).1
        ≡ is_installed (auto_register_service windows).0
          && is_started windows (auto_register_service windows).0)
open_after-auto_register_service_example = open_after-auto_register_service windows

-- The change of its configuration is asked for without the right to it.
changed_test : lacking (auto_register_service windows).0 ≡ change_config 1 ∷ []
unfolding auto_register_service lacking open_after rights_of without
changed_test = refl
