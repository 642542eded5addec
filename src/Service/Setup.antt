-- ===== src/Service/Setup.antt =====
-- The constants of service/src/lifecycle/setup.h, and the path of the database that
-- create_service_core opens.
use divoom_dev.Prelude.{ℕ, Bool, ◌++◌, if◌then◌else◌}
use divoom_dev.Prelude.Text.{Text, codes}
use divoom_dev.Service.Core.{Core, set_update_interval}

-- In minutes.
abbrev pub update_interval : ℕ
update_interval = 15

abbrev pub service_name : Text
service_name = codes "DivoomDev"

abbrev pub service_description : Text
service_description = codes "Divoom device clock manager service"

abbrev pub data_dir : Bool → Text
data_dir is_windows =
    if is_windows
    then codes "C:/ProgramData/arseny802/divoomdev"
    else codes "/var/lib/arseny802/divoomdev"

abbrev pub log_dir : Bool → Text
log_dir is_windows =
    if is_windows
    then codes "C:/ProgramData/arseny802/divoomdev/logs"
    else codes "/var/log/arseny802/divoomdev"

abbrev pub database_path : Bool → Text
database_path is_windows = data_dir is_windows ++ codes "/" ++ codes "config.db"

-- What manager::run tells the core.
abbrev pub configured : Core → Core
configured core = set_update_interval core update_interval
