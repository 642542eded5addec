-- ===== src/Divoom/Display.antt =====
-- The elements of a display (common/include/common/display.h, display_type.h and
-- display_rendered.h), and what their macros make of them in JSON and read of it.
pub mod Example
pub mod Members
mod Tests
use divoom_dev.Prelude.{Option, none, some, List, [], ◌∷◌}
use divoom_dev.Prelude.Int.{ℤ, pos}
use divoom_dev.Prelude.Map.{lookup}
use divoom_dev.Prelude.Text.{Text, codes}
use divoom_dev.Divoom.Commands.Members.{Member, text_member, int_member}
use divoom_dev.Json.{◌>>=◌}

pub data DisplayType : Type 0 where
  text image net_data time date weather temperature mon_year mday year month week : DisplayType

-- magic_enum::enum_name
abbrev pub enum_name : DisplayType → Text
enum_name DisplayType.text = codes "Text"
enum_name DisplayType.image = codes "Image"
enum_name DisplayType.net_data = codes "NetData"
enum_name DisplayType.time = codes "Time"
enum_name DisplayType.date = codes "Date"
enum_name DisplayType.weather = codes "Weather"
enum_name DisplayType.temperature = codes "Temperature"
enum_name DisplayType.mon_year = codes "MonYear"
enum_name DisplayType.mday = codes "Mday"
enum_name DisplayType.year = codes "Year"
enum_name DisplayType.month = codes "Month"
enum_name DisplayType.week = codes "Week"

pub record Display : Type 0 where
  pub id : ℤ
  pub text_message : Text

pub record Rendered : Type 0 where
  pub id : ℤ
  pub text_message : Text
  pub type : DisplayType
  pub type_text : Text
  pub start_x : ℤ
  pub start_y : ℤ
  pub width : ℤ
  pub height : ℤ
  pub align : ℤ
  pub font_color : Text
  pub bg_color : Text
  pub font_size : ℤ
  pub font_id : ℤ
  pub url : Text
  pub rule_info : Text
  pub request_time : ℤ

abbrev pub default_rendered : Rendered
default_rendered = record {
  id = pos 0;
  text_message = [];
  type = DisplayType.text;
  type_text = enum_name DisplayType.text;
  start_x = pos 0;
  start_y = pos 0;
  width = pos 0;
  height = pos 0;
  align = pos 0;
  font_color = codes "#FFFFFF";
  bg_color = codes "#000000";
  font_size = pos 0;
  font_id = pos 0;
  url = [];
  rule_info = [];
  request_time = pos 30;
}

-- The members of an object.
abbrev pub Members : Type 0 → Type 0
Members J = List (Text × Member J)

module _ {J : Type 0} where
  -- to_json
  unfoldable pub display_members : Display → Members J
  display_members d =
      (codes "ID", int_member d.id) ∷ (codes "TextMessage", text_member d.text_message) ∷ []

  unfoldable pub rendered_members : Rendered → Members J
  rendered_members d =
      (codes "ID", int_member d.id)
      ∷ (codes "TextMessage", text_member d.text_message)
      ∷ (codes "Type", text_member d.type_text)
      ∷ (codes "StartX", int_member d.start_x)
      ∷ (codes "StartY", int_member d.start_y)
      ∷ (codes "Width", int_member d.width)
      ∷ (codes "Height", int_member d.height)
      ∷ (codes "FontSize", int_member d.font_size)
      ∷ (codes "FontID", int_member d.font_id)
      ∷ (codes "FontColor", text_member d.font_color)
      ∷ (codes "BgColor", text_member d.bg_color)
      ∷ (codes "Url", text_member d.url)
      ∷ (codes "RuleInfo", text_member d.rule_info)
      ∷ (codes "RequestTime", int_member d.request_time)
      ∷ []

  abbrev as_int : Member J → Option ℤ
  as_int (int_member n) = some n
  as_int _ = none

  abbrev as_text : Member J → Option Text
  as_text (text_member t) = some t
  as_text _ = none

  -- `at(key).get_to(...)`, which throws where there is no such member or it is of another type.
  unfoldable pub int_at : Text → Members J → Option ℤ
  unfolding lookup
  int_at key ms = do m ← lookup key ms; as_int m

  unfoldable pub text_at : Text → Members J → Option Text
  unfolding lookup
  text_at key ms = do m ← lookup key ms; as_text m

  -- from_json, into an object with the default values.
  unfoldable pub read_display : Members J → Option Display
  unfolding int_at text_at
  read_display ms = do
    id ← int_at (codes "ID") ms
    text_message ← text_at (codes "TextMessage") ms
    some (record { id = id; text_message = text_message })

  unfoldable pub read_rendered : Members J → Option Rendered
  unfolding int_at text_at
  read_rendered ms = do
    id ← int_at (codes "ID") ms
    text_message ← text_at (codes "TextMessage") ms
    type_text ← text_at (codes "Type") ms
    start_x ← int_at (codes "StartX") ms
    start_y ← int_at (codes "StartY") ms
    width ← int_at (codes "Width") ms
    height ← int_at (codes "Height") ms
    font_size ← int_at (codes "FontSize") ms
    font_id ← int_at (codes "FontID") ms
    font_color ← text_at (codes "FontColor") ms
    bg_color ← text_at (codes "BgColor") ms
    url ← text_at (codes "Url") ms
    rule_info ← text_at (codes "RuleInfo") ms
    request_time ← int_at (codes "RequestTime") ms
    some (record default_rendered {
      id = id;
      text_message = text_message;
      type_text = type_text;
      start_x = start_x;
      start_y = start_y;
      width = width;
      height = height;
      font_size = font_size;
      font_id = font_id;
      font_color = font_color;
      bg_color = bg_color;
      url = url;
      rule_info = rule_info;
      request_time = request_time;
    })
