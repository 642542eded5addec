-- ===== src/Divoom/Display/Example.antt =====
-- The display of service/src/core/example_view.hpp.
use divoom_dev.Prelude.{List, [], ◌∷◌}
use divoom_dev.Prelude.Int.{pos}
use divoom_dev.Prelude.Text.{codes}
use divoom_dev.Divoom.Display.{DisplayType, Rendered, default_rendered}

abbrev pub score : Rendered
score = record default_rendered {
  type = DisplayType.net_data;
  id = pos 1;
  type_text = codes "NetData";
  start_x = pos 491;
  start_y = pos 462;
  width = pos 272;
  height = pos 53;
  align = pos 0;
  font_size = pos 40;
  font_id = pos 52;
  font_color = codes "#FFFFFF";
  bg_color = codes "#FF0000";
  url = codes "https://app.divoom-gz.com/User/GetUserData?SearchDivoomUser=400000012";
  rule_info = codes "n:LikeCnt";
  request_time = pos 30;
}

abbrev pub level : Rendered
level = record default_rendered {
  type = DisplayType.net_data;
  type_text = codes "NetData";
  id = pos 2;
  start_x = pos 483;
  start_y = pos 385;
  width = pos 280;
  height = pos 53;
  align = pos 0;
  font_size = pos 40;
  font_id = pos 52;
  font_color = codes "#FFFFFF";
  bg_color = codes "#FF0000";
  url = codes "https://app.divoom-gz.com/User/GetUserData?SearchDivoomUser=400000012";
  rule_info = codes "n:Level";
  request_time = pos 30;
}

abbrev pub nickname : Rendered
nickname = record default_rendered {
  type = DisplayType.net_data;
  type_text = codes "NetData";
  id = pos 3;
  start_x = pos 349;
  start_y = pos 252;
  width = pos 414;
  height = pos 93;
  align = pos 0;
  font_size = pos 64;
  font_id = pos 126;
  font_color = codes "#FFFFFF";
  bg_color = codes "#FF0000";
  url = codes "https://app.divoom-gz.com/User/GetUserData?SearchDivoomUser=400000012";
  rule_info = codes "s:Nickname";
  request_time = pos 30;
}

abbrev pub clock : Rendered
clock = record default_rendered {
  type = DisplayType.time;
  type_text = codes "Time";
  id = pos 4;
  start_x = pos 474;
  start_y = pos 1123;
  width = pos 308;
  height = pos 125;
  align = pos 1;
  font_size = pos 95;
  font_id = pos 52;
  font_color = codes "#A8B35E";
  bg_color = codes "#FF0000";
}

abbrev pub month_day : Rendered
month_day = record default_rendered {
  type = DisplayType.mday;
  type_text = codes "Mday";
  id = pos 5;
  start_x = pos 236;
  start_y = pos 1136;
  width = pos 79;
  height = pos 50;
  align = pos 0;
  font_size = pos 38;
  font_id = pos 52;
  font_color = codes "#CFAA63";
  bg_color = codes "#FF0000";
}

abbrev pub month_and_year : Rendered
month_and_year = record default_rendered {
  type = DisplayType.mon_year;
  type_text = codes "MonYear";
  id = pos 6;
  start_x = pos 136;
  start_y = pos 1186;
  width = pos 200;
  height = pos 50;
  align = pos 0;
  font_size = pos 38;
  font_id = pos 52;
  font_color = codes "#CFAA63";
  bg_color = codes "#FF0000";
}

abbrev pub week_day : Rendered
week_day = record default_rendered {
  type = DisplayType.week;
  type_text = codes "Week";
  id = pos 7;
  start_x = pos 136;
  start_y = pos 1136;
  width = pos 100;
  height = pos 50;
  align = pos 0;
  font_size = pos 38;
  font_id = pos 52;
  font_color = codes "#A8B35E";
  bg_color = codes "#FF0000";
}

abbrev pub likes : Rendered
likes = record default_rendered {
  type = DisplayType.net_data;
  type_text = codes "NetData";
  id = pos 8;
  start_x = pos 51;
  start_y = pos 890;
  width = pos 699;
  height = pos 174;
  align = pos 2;
  font_size = pos 115;
  font_id = pos 126;
  font_color = codes "#484D12";
  bg_color = codes "#FF0000";
  url = codes "https://app.divoom-gz.com/User/GetUserData?SearchDivoomUser=400000012";
  rule_info = codes "n:LikeCnt";
  request_time = pos 30;
}

abbrev pub fans : Rendered
fans = record default_rendered {
  type = DisplayType.net_data;
  type_text = codes "NetData";
  id = pos 9;
  start_x = pos 51;
  start_y = pos 616;
  width = pos 699;
  height = pos 168;
  align = pos 2;
  font_size = pos 115;
  font_id = pos 126;
  font_color = codes "#484D12";
  bg_color = codes "#FF0000";
  url = codes "https://app.divoom-gz.com/User/GetUserData?SearchDivoomUser=400000012";
  rule_info = codes "n:FansCnt";
  request_time = pos 30;
}

abbrev pub weather_image : Rendered
weather_image = record default_rendered {
  type = DisplayType.weather;
  type_text = codes "Weather";
  id = pos 10;
  start_x = pos 33;
  start_y = pos 1135;
  width = pos 64;
  height = pos 64;
  align = pos 2;
  font_size = pos 115;
  font_id = pos 126;
  font_color = codes "#484D12";
  bg_color = codes "#FF0000";
  url = codes "https://f.divoom-gz.com/group1/M00/0C/4D/rBAAM2fZCOSEN4MoAAAAADuUrnI59.webp";
}

abbrev pub temperature_label : Rendered
temperature_label = record default_rendered {
  type = DisplayType.temperature;
  type_text = codes "Temperature";
  id = pos 11;
  start_x = pos 18;
  start_y = pos 1199;
  width = pos 93;
  height = pos 33;
  align = pos 2;
  font_size = pos 25;
  font_id = pos 52;
  font_color = codes "#CFAA63";
  bg_color = codes "#FF0000";
}

abbrev pub local_image : Rendered
local_image = record default_rendered {
  type = DisplayType.image;
  type_text = codes "Image";
  id = pos 12;
  start_x = pos 13;
  start_y = pos 227;
  width = pos 320;
  height = pos 320;
  align = pos 2;
  font_size = pos 115;
  font_id = pos 126;
  font_color = codes "#484D12";
  bg_color = codes "#FF0000";
  url = codes "/userdata/weather.gif";
}

abbrev pub message : Rendered
message = record default_rendered {
  type = DisplayType.text;
  type_text = codes "Text";
  id = pos 13;
  start_x = pos 0;
  start_y = pos 10;
  width = pos 720;
  height = pos 90;
  align = pos 2;
  font_size = pos 64;
  font_id = pos 126;
  font_color = codes "#484D12";
  bg_color = codes "#FF0000";
  text_message = codes "this is text";
}

abbrev pub get_display_list : List Rendered
get_display_list =
    score ∷ level ∷ nickname ∷ clock ∷ month_day ∷ month_and_year ∷ week_day ∷ likes ∷ fans
    ∷ weather_image ∷ temperature_label ∷ local_image ∷ message ∷ []
