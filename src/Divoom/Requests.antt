-- ===== src/Divoom/Requests.antt =====
-- The requests of the Divoom client: the constructors and get_path of the handlers of
-- divoom/src/handlers, and what client::execute of divoom/src/client.cpp sends for each call of the
-- client. MD5 and the printing of a document are parameters.
pub mod Secrets
use divoom_dev.Prelude.{ℕ, Bool, true, false, Option, none, some, List, [], ◌∷◌, ◌++◌}
use divoom_dev.Prelude.Int.{ℤ, pos}
use divoom_dev.Prelude.Text.{Text, codes}
use divoom_dev.Divoom.Client.{Response, execute}
use divoom_dev.Divoom.Commands.Members.{
  Member, command_members, login_members, get_list_members, get_config_members, set_config_members,
  select_id_members, brightness_members, turn_screen_members, high_light_members, mirror_members,
  time_format_members, enter_members, patch_clock_info_members, update_text_members,
}
use divoom_dev.Divoom.Commands.{
  named, AllConfCommand, new_login, new_get_list, new_get_config, new_set_config,
}
use divoom_dev.Divoom.Types.{UserInfo, Item, Reply, Handled, Called}

pub data RequestType : Type 0 where
  get_request post_request : RequestType

-- A handler as execute sees it before the answer: its type, its path and the members of its
-- request, in the order of the macro that names them.
pub record Handler (J : Type 0) : Type 0 where
  pub request_type : RequestType
  pub get_path : Text → Text
  pub members : List (Text × Member J)

-- "https://{}:443" and a path, or "http://{}:9000/divoom_api"
abbrev pub cloud_path : Text → Text → Text
cloud_path path host = codes "https://" ++ host ++ codes ":443/" ++ path

abbrev pub device_path : Text → Text
device_path host = codes "http://" ++ host ++ codes ":9000/divoom_api"

module _ {J : Type 0} where
  -- A command to the device.
  abbrev pub device_command : List (Text × Member J) → Handler J
  device_command members = record {
    request_type = post_request;
    get_path = device_path;
    members = members;
  }

  -- A command with the members of struct command.
  abbrev pub plain_command : Text → Handler J
  plain_command name = device_command (command_members (named name))

  abbrev pub cloud_query : Text → Handler J
  cloud_query path = record { request_type = get_request; get_path = cloud_path path; members = [] }

  -- A command to the cloud, whose path is its name.
  abbrev pub cloud_command : Text → List (Text × Member J) → Handler J
  cloud_command name members = record {
    request_type = post_request;
    get_path = cloud_path name;
    members = members;
  }

  unfoldable pub login_request : (Text → Text) → Text → Text → Handler J
  login_request compute_md5 email password = cloud_command (codes "UserLogin") (
      login_members
        (record (new_login (codes "UserLogin")) { email = email; password = compute_md5 password }))

  unfoldable pub devices_request : Handler J
  devices_request = cloud_query (codes "Device/ReturnSameLANDevice")

  unfoldable pub font_list_request : Handler J
  font_list_request = cloud_query (codes "Device/GetTimeDialFontV2")

  unfoldable pub get_list_request : ℤ → Handler J
  get_list_request device_id =
      cloud_command (codes "Channel/MyClockGetList")
        (get_list_members (record new_get_list { device_id = device_id }))

  unfoldable pub get_config_request : ℤ → ℤ → UserInfo → Handler J
  get_config_request device_id clock_id user = cloud_command (codes "Channel/GetClockConfig") (
      get_config_members (record (new_get_config (codes "Channel/GetClockConfig") user) {
        device_id = device_id;
        clock_id = clock_id;
      }))

  unfoldable pub set_config_request : (List Item → J) → ℤ → ℤ → UserInfo → List Item → Handler J
  set_config_request to_json device_id clock_id user item_list =
      cloud_command (codes "Channel/SetClockConfig") (
        set_config_members to_json
          (new_set_config (codes "Channel/SetClockConfig") user item_list device_id clock_id))

  unfoldable pub select_id_request : ℤ → Handler J
  select_id_request clock_id = device_command (
      select_id_members
        (record { base = named (codes "Channel/SetClockSelectId"); clock_id = clock_id }))

  unfoldable pub brightness_request : ℤ → Handler J
  brightness_request brightness = device_command (
      brightness_members
        (record { base = named (codes "Channel/SetBrightness"); brightness = brightness }))

  unfoldable pub turn_screen_request : ℤ → Handler J
  turn_screen_request turn_on = device_command (
      turn_screen_members (record { base = named (codes "Channel/OnOffScreen"); on_off = turn_on }))

  unfoldable pub high_light_request : ℤ → Handler J
  high_light_request mode =
      device_command (
        high_light_members (record { base = named (codes "Device/SetHighLightMode"); mode = mode }))

  unfoldable pub mirror_request : ℤ → Handler J
  mirror_request mode =
      device_command
        (mirror_members (record { base = named (codes "Device/SetMirrorMode"); mode = mode }))

  unfoldable pub time_format_request : ℤ → Handler J
  time_format_request mode =
      device_command
        (time_format_members (record { base = named (codes "Device/SetTime24Flag"); mode = mode }))

  -- all_conf_command has no macro of its own, so the one of command prints it.
  unfoldable pub all_conf_request : Handler J
  all_conf_request =
      let request : AllConfCommand = record {
        base = named (codes "Channel/GetConfig");
        channel_type = codes "Clock";
        channel_id = pos 0;
      } in
      device_command (command_members request.base)

  unfoldable pub index_request : Handler J
  index_request = plain_command (codes "Channel/GetIndex")

  unfoldable pub clock_info_request : Handler J
  clock_info_request = plain_command (codes "Device/GetLocalClockInfo")

  unfoldable pub reboot_request : Handler J
  reboot_request = plain_command (codes "Device/SysReboot")

  unfoldable pub exit_request : Handler J
  exit_request = plain_command (codes "Device/ExitCustomControlMode")

  unfoldable pub enter_request : J → Text → ℤ → Handler J
  enter_request display_list image_addr image_local_flag = device_command (
      enter_members (record {
        base = named (codes "Device/EnterCustomControlMode");
        backgroud_image_addr = image_addr;
        backgroud_image_local_flag = image_local_flag;
        disp_list = display_list;
      }))

  unfoldable pub patch_clock_info_request : J → Handler J
  patch_clock_info_request patch_list = device_command (
      patch_clock_info_members (record {
        base = named (codes "Device/GetLocalClockInfo");
        use_current_display_clock = true;
        item_patch_list = patch_list;
      }))

  unfoldable pub update_text_request : J → Handler J
  update_text_request display_list = device_command (
      update_text_members
        (record { base = named (codes "Device/UpdateDisplayItems"); disp_list = display_list }))

-- The calls of the client, with their arguments behind the host.
pub data Call (J : Type 0) : Type 0 where
  login : Text → Text → Call J
  get_devices get_font_list : Call J
  get_device_clockes : ℤ → Call J
  get_clock_config : ℤ → ℤ → UserInfo → Call J
  set_clock_config : ℤ → ℤ → UserInfo → List Item → Call J
  do_reboot get_all_conf get_clock_info get_index cusom_control_exit : Call J
  do_turn_screen set_brightness set_high_light set_mirror set_time_format set_clock_id : ℤ → Call J
  patch_clock_info cusom_control_update_text : J → Call J
  cusom_control_enter : J → Text → ℤ → Call J

module _ {J : Type 0} (compute_md5 : Text → Text) (to_json : List Item → J) where
  -- The handler that a call makes.
  unfoldable pub handler_of : Call J → Handler J
  unfolding login_request devices_request font_list_request get_list_request get_config_request
      set_config_request select_id_request brightness_request turn_screen_request high_light_request
      mirror_request time_format_request all_conf_request index_request clock_info_request
      reboot_request exit_request enter_request patch_clock_info_request update_text_request
  handler_of (login email password) = login_request compute_md5 email password
  handler_of get_devices = devices_request
  handler_of get_font_list = font_list_request
  handler_of (get_device_clockes device_id) = get_list_request device_id
  handler_of (get_clock_config device_id clock_id user) = get_config_request device_id clock_id user
  handler_of (set_clock_config device_id clock_id user items) =
      set_config_request to_json device_id clock_id user items
  handler_of do_reboot = reboot_request
  handler_of get_all_conf = all_conf_request
  handler_of get_clock_info = clock_info_request
  handler_of get_index = index_request
  handler_of cusom_control_exit = exit_request
  handler_of (do_turn_screen turn_on) = turn_screen_request turn_on
  handler_of (set_brightness brightness) = brightness_request brightness
  handler_of (set_high_light mode) = high_light_request mode
  handler_of (set_mirror mode) = mirror_request mode
  handler_of (set_time_format mode) = time_format_request mode
  handler_of (set_clock_id clock_id) = select_id_request clock_id
  handler_of (patch_clock_info patch_list) = patch_clock_info_request patch_list
  handler_of (cusom_control_update_text display_list) = update_text_request display_list
  handler_of (cusom_control_enter display_list addr flag) = enter_request display_list addr flag

-- What cpr::Get or cpr::Post is given; a GET has no body.
pub record Sent : Type 0 where
  pub request_type : RequestType
  pub url : Text
  pub header : List (Text × Text)
  pub body : Text
  pub verify_host : Bool
  pub verify_peer : Bool

abbrev pub get_base_headers : List (Text × Text)
get_base_headers =
    (codes "Content-Type", codes "application/json")
    ∷ (codes "accept", codes "application/json")
    ∷ []

module _ {J : Type 0} (dump : List (Text × Member J) → Text) where
  abbrev body_of : RequestType → List (Text × Member J) → Text
  body_of get_request members = []
  body_of post_request members = dump members

  unfoldable pub sent : Handler J → Text → Sent
  sent handler host = record {
    request_type = handler.request_type;
    url = handler.get_path host;
    header = get_base_headers;
    body = body_of handler.request_type handler.members;
    verify_host = false;
    verify_peer = false;
  }

  -- client::execute, over what the HTTP library answers
  unfoldable pub execute_request :
      {A : Type 0}
      → (Sent → Reply Response)
      → (Text → Handled A)
      → Handler J
      → Text
      → Called (Option A)
  unfolding sent execute
  execute_request send handle handler host = execute handle (send (sent handler host))
