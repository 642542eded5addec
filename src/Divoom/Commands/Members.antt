-- ===== src/Divoom/Commands/Members.antt =====
-- The members that the macro behind each struct of divoom/src/handlers names for JSON, in its order.
use divoom_dev.Prelude.{Bool, List, [], ◌∷◌}
use divoom_dev.Prelude.Int.{ℤ}
use divoom_dev.Prelude.Text.{Text, codes}
use divoom_dev.Divoom.Commands.{
  Command, LoginCommand, GetListRequest, GetConfigCommand, SetConfigCommand, SelectIdCommand,
  BrightnessCommand, TurnScreenCommand, HighLightCommand, MirrorCommand, TimeFormatCommand,
  EnterCommand, PatchClockInfoCommand, UpdateTextCommand,
}
use divoom_dev.Divoom.Types.{Item}

pub data Member (J : Type 0) : Type 0 where
  text_member : Text → Member J
  int_member : ℤ → Member J
  bool_member : Bool → Member J
  json_member : J → Member J

module _ {J : Type 0} where
  abbrev named_member : Command → Text × Member J
  named_member r = (codes "Command", text_member r.command)

  abbrev pub command_members : Command → List (Text × Member J)
  command_members r =
      named_member r
      ∷ (codes "ReturnMessage", text_member r.return_message)
      ∷ (codes "ReturnCode", int_member r.return_code)
      ∷ []

  abbrev pub login_members : LoginCommand → List (Text × Member J)
  login_members r =
      named_member r.base
      ∷ (codes "Email", text_member r.email)
      ∷ (codes "Password", text_member r.password)
      ∷ (codes "Language", text_member r.language)
      ∷ (codes "TimeZone", text_member r.time_zone)
      ∷ []

  abbrev pub get_list_members : GetListRequest → List (Text × Member J)
  get_list_members r =
      (codes "DeviceId", int_member r.device_id)
      ∷ (codes "StartNum", int_member r.start_num)
      ∷ (codes "EndNum", int_member r.end_num)
      ∷ (codes "DeviceType", text_member r.device_type)
      ∷ []

  abbrev pub get_config_members : GetConfigCommand → List (Text × Member J)
  get_config_members r =
      named_member r.base
      ∷ (codes "DeviceId", int_member r.device_id)
      ∷ (codes "DeviceType", text_member r.device_type)
      ∷ (codes "ClockId", int_member r.clock_id)
      ∷ (codes "UserId", int_member r.user.user_id)
      ∷ (codes "Token", int_member r.user.token)
      ∷ []

  abbrev pub set_config_members : (List Item → J) → SetConfigCommand → List (Text × Member J)
  set_config_members to_json r =
      named_member r.base
      ∷ (codes "DeviceId", int_member r.device_id)
      ∷ (codes "ClockId", int_member r.clock_id)
      ∷ (codes "UserId", int_member r.user.user_id)
      ∷ (codes "Token", int_member r.user.token)
      ∷ (codes "ItemList", json_member (to_json r.item_list))
      ∷ (codes "LcdIndependence", int_member r.lcd_independence)
      ∷ (codes "LcdIndex", int_member r.lcd_index)
      ∷ (codes "PageIndex", int_member r.page_index)
      ∷ (codes "ParentClockId", int_member r.parent_clock_id)
      ∷ (codes "ParentItemId", text_member r.parent_item_id)
      ∷ (codes "Language", text_member r.language)
      ∷ []

  abbrev pub select_id_members : SelectIdCommand → List (Text × Member J)
  select_id_members r = named_member r.base ∷ (codes "ClockId", int_member r.clock_id) ∷ []

  abbrev pub brightness_members : BrightnessCommand → List (Text × Member J)
  brightness_members r = named_member r.base ∷ (codes "Brightness", int_member r.brightness) ∷ []

  abbrev pub turn_screen_members : TurnScreenCommand → List (Text × Member J)
  turn_screen_members r = named_member r.base ∷ (codes "OnOff", int_member r.on_off) ∷ []

  abbrev pub high_light_members : HighLightCommand → List (Text × Member J)
  high_light_members r = named_member r.base ∷ (codes "Mode", int_member r.mode) ∷ []

  abbrev pub mirror_members : MirrorCommand → List (Text × Member J)
  mirror_members r = named_member r.base ∷ (codes "Mode", int_member r.mode) ∷ []

  abbrev pub time_format_members : TimeFormatCommand → List (Text × Member J)
  time_format_members r = named_member r.base ∷ (codes "Mode", int_member r.mode) ∷ []

  abbrev pub enter_members : EnterCommand J → List (Text × Member J)
  enter_members r =
      named_member r.base
      ∷ (codes "BackgroudImageAddr", text_member r.backgroud_image_addr)
      ∷ (codes "BackgroudImageLocalFlag", int_member r.backgroud_image_local_flag)
      ∷ (codes "DispList", json_member r.disp_list)
      ∷ []

  abbrev pub patch_clock_info_members : PatchClockInfoCommand J → List (Text × Member J)
  patch_clock_info_members r =
      named_member r.base
      ∷ (codes "UseCurrentDisplayClock", bool_member r.use_current_display_clock)
      ∷ (codes "ItemPatchList", json_member r.item_patch_list)
      ∷ []

  abbrev pub update_text_members : UpdateTextCommand J → List (Text × Member J)
  update_text_members r = named_member r.base ∷ (codes "DispList", json_member r.disp_list) ∷ []
