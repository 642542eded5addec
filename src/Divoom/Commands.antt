-- ===== src/Divoom/Commands.antt =====
-- The requests of divoom/src/handlers as the structs that the headers declare, with the values that
-- their members begin with. A list of display items is a JSON value of the type `J`.
pub mod Members
use divoom_dev.Prelude.{Bool, List, [], ◌∷◌}
use divoom_dev.Prelude.Int.{ℤ, pos}
use divoom_dev.Prelude.Text.{Text, codes}
use divoom_dev.Divoom.Types.{UserInfo, Item}

pub record Command : Type 0 where
  pub command : Text
  pub return_message : Text
  pub return_code : ℤ

-- A command whose constructor sets its name alone.
abbrev pub named : Text → Command
named name = record { command = name; return_message = []; return_code = pos 0 }

pub record LoginCommand : Type 0 where
  pub base : Command
  pub email : Text
  pub password : Text
  pub language : Text
  pub time_zone : Text

abbrev pub new_login : Text → LoginCommand
new_login name = record {
  base = named name;
  email = [];
  password = [];
  language = codes "ru";
  time_zone = codes "+3";
}

pub record GetListRequest : Type 0 where
  pub device_id : ℤ
  pub start_num : ℤ
  pub end_num : ℤ
  pub device_type : Text

abbrev pub new_get_list : GetListRequest
new_get_list = record {
  device_id = pos 0;
  start_num = pos 1;
  end_num = pos 100;
  device_type = codes "Frame";
}

pub record GetConfigCommand : Type 0 where
  pub base : Command
  pub user : UserInfo
  pub device_id : ℤ
  pub clock_id : ℤ
  pub device_type : Text

abbrev pub new_get_config : Text → UserInfo → GetConfigCommand
new_get_config name user = record {
  base = named name;
  user = user;
  device_id = pos 0;
  clock_id = pos 0;
  device_type = codes "Frame";
}

-- The two identifiers begin with no value; the constructor of set_config sets them. Of the members
-- of struct clock_config, the macro names the list of items alone.
pub record SetConfigCommand : Type 0 where
  pub base : Command
  pub user : UserInfo
  pub item_list : List Item
  pub device_id : ℤ
  pub clock_id : ℤ
  pub lcd_independence : ℤ
  pub lcd_index : ℤ
  pub page_index : ℤ
  pub parent_clock_id : ℤ
  pub parent_item_id : Text
  pub language : Text

abbrev pub new_set_config : Text → UserInfo → List Item → ℤ → ℤ → SetConfigCommand
new_set_config name user item_list device_id clock_id = record {
  base = named name;
  user = user;
  item_list = item_list;
  device_id = device_id;
  clock_id = clock_id;
  lcd_independence = pos 0;
  lcd_index = pos 0;
  page_index = pos 0;
  parent_clock_id = pos 0;
  parent_item_id = codes "ru";
  language = codes "ru";
}

pub record SelectIdCommand : Type 0 where
  pub base : Command
  pub clock_id : ℤ

pub record BrightnessCommand : Type 0 where
  pub base : Command
  pub brightness : ℤ

pub record TurnScreenCommand : Type 0 where
  pub base : Command
  pub on_off : ℤ

pub record HighLightCommand : Type 0 where
  pub base : Command
  pub mode : ℤ

pub record MirrorCommand : Type 0 where
  pub base : Command
  pub mode : ℤ

pub record TimeFormatCommand : Type 0 where
  pub base : Command
  pub mode : ℤ

pub record AllConfCommand : Type 0 where
  pub base : Command
  pub channel_type : Text
  pub channel_id : ℤ

pub record EnterCommand (J : Type 0) : Type 0 where
  pub base : Command
  pub backgroud_image_addr : Text
  pub backgroud_image_local_flag : ℤ
  pub disp_list : J

pub record PatchClockInfoCommand (J : Type 0) : Type 0 where
  pub base : Command
  pub use_current_display_clock : Bool
  pub item_patch_list : J

pub record UpdateTextCommand (J : Type 0) : Type 0 where
  pub base : Command
  pub disp_list : J
