-- ===== src/Divoom/Handlers.antt =====
-- The `handle` of the handlers of divoom/src/handlers. A local struct's int that no member of the
-- document sets has an indeterminate value, the parameter `garbage`.
use divoom_dev.Prelude.{Bool, Option, none, some, List, [], ◌∷◌, if◌then◌else◌}
use divoom_dev.Prelude.Int.{ℤ, pos}
use divoom_dev.Prelude.Text.{Text, codes}
use divoom_dev.Divoom.Client.{parse_json}
use divoom_dev.Divoom.Types.{
  Device, UserInfo, Item, ClockConfig, Clock, Font, other, Reply, answered, failed, Handled,
  returned, thrown, crashed,
}
use divoom_dev.Json.{Nlohmann, ◌>>=◌, read_all, member_if, value}

abbrev or_thrown : {A : Type 0} → Option A → Handled A
or_thrown none = thrown other
or_thrown (some a) = returned (some a)

module _ {J : Type 0} (json : Nlohmann J) where
  -- A handler that looks at the pointer first.
  abbrev pub read_document : {A : Type 0} → (J → Handled A) → Reply (Option J) → Handled A
  read_document read (failed e) = thrown e
  read_document read (answered none) = returned none
  read_document read (answered (some j)) = read j

  unfoldable pub read_user : J → Option UserInfo
  read_user j = do
    user ← json.field j (codes "UserId")
    user_id ← json.get_int user
    t ← json.field j (codes "Token")
    token ← json.get_int t
    some (record { token = token; user_id = user_id })

  unfoldable pub login : Text → Handled UserInfo
  unfolding read_user parse_json
  login body = read_document (λ j. or_thrown (read_user j)) (parse_json json body)

  -- A handler of a list, which follows the pointer at once.
  abbrev listed : {A : Type 0} → (J → Option A) → Option J → Handled (List A)
  listed read none = returned none
  listed read (some array) = or_thrown (read_all read (json.items array))

  abbrev list_document : {A : Type 0} → Text → (J → Option A) → Reply (Option J) → Handled (List A)
  list_document key read (failed e) = thrown e
  list_document key read (answered none) = crashed
  list_document key read (answered (some j)) = listed read (member_if json json.is_array j key)

  unfoldable pub handle_list : {A : Type 0} → Text → (J → Option A) → Text → Handled (List A)
  unfolding read_all parse_json
  handle_list key read body = list_document key read (parse_json json body)

  unfoldable pub read_device : J → Option Device
  read_device j = do
    name ← value json json.get_text j (codes "DeviceName") []
    id ← value json json.get_int j (codes "DeviceId") (pos 0)
    private_ip ← value json json.get_text j (codes "DevicePrivateIP") []
    mac ← value json json.get_text j (codes "DeviceMac") []
    hardware ← value json json.get_int j (codes "Hardware") (pos 0)
    some (record { name = name; id = id; private_ip = private_ip; mac = mac; hardware = hardware })

  unfoldable pub devices : Text → Handled (List Device)
  unfolding read_device handle_list
  devices body = handle_list (codes "DeviceList") read_device body

  unfoldable pub read_clock : J → Option Clock
  read_clock j = do
    id ← value json json.get_int j (codes "ClockId") (pos 0)
    name ← value json json.get_text j (codes "ClockName") []
    type ← value json json.get_int j (codes "ClockType") (pos 0)
    image ← value json json.get_text j (codes "ImagePixelId") []
    position ← value json json.get_int j (codes "Position") (pos 0)
    some (record { id = id; name = name; type = type; image_pixel_id = image; position = position })

  unfoldable pub clocks : Text → Handled (List Clock)
  unfolding read_clock handle_list
  clocks body = handle_list (codes "ClockList") read_clock body

  unfoldable pub read_font : J → Option Font
  read_font j = do
    id ← value json json.get_int j (codes "id") (pos 0)
    type ← value json json.get_int j (codes "type") (pos 0)
    url ← value json json.get_text j (codes "url") []
    char_set ← value json json.get_text j (codes "charSet") []
    encryption ← value json json.get_text j (codes "Encryption") []
    some (record { id = id; type = type; url = url; char_set = char_set; encryption = encryption })

  unfoldable pub fonts : Text → Handled (List Font)
  unfolding read_font handle_list
  fonts body = handle_list (codes "FontList") read_font body

  -- `parse_json(data).get()`, the handler of every command without an answer.
  unfoldable pub acknowledge : Text → Handled (Unit {0})
  unfolding parse_json
  acknowledge body = read_document (λ j. returned (some tt)) (parse_json json body)

  -- A member that is read if it has the right type; reading it may throw all the same.
  abbrev member_or : {A : Type 0} → (J → Bool) → (J → Option A) → J → Text → A → Option A
  member_or test get j key default = elim (member_if json test j key) [
    | none ↦ some default
    | some v ↦ get v
  ]

  abbrev get_texts : List J → Option (List Text)
  get_texts [] = some []
  get_texts (v ∷ vs) =
      let rest = get_texts vs in
      if json.is_string v then (do t ← json.get_text v; ts ← rest; some (t ∷ ts)) else rest

  abbrev texts_of : Option J → Option (List Text)
  texts_of none = some []
  texts_of (some array) = get_texts (json.items array)

  unfoldable pub parse_item : ℤ → J → Option Item
  parse_item garbage j =
      if json.is_null j
      then some (record {
        invisible = garbage;
        item_id = [];
        item_name = [];
        item_type = garbage;
        item_value = [];
        item_value_name = [];
        show_by_other_item_id = [];
        show_by_other_item_value = [];
        control_other_item_show = [];
      })
      else (do
        invisible ← member_or json.is_number json.get_int j (codes "Invisible") garbage
        item_id ← member_or json.is_string json.get_text j (codes "ItemId") []
        item_name ← member_or json.is_string json.get_text j (codes "ItemName") []
        item_type ← member_or json.is_number json.get_int j (codes "ItemType") garbage
        item_value ← member_or json.is_string json.get_text j (codes "ItemValue") []
        value_name ← member_or json.is_string json.get_text j (codes "ItemValueName") []
        by_id ← member_or json.is_string json.get_text j (codes "ShowByOtherItemId") []
        by_value ← member_or json.is_string json.get_text j (codes "ShowByOtherItemValue") []
        others ← texts_of (member_if json json.is_array j (codes "ControlOtherItemShow"))
        some (record {
          invisible = invisible;
          item_id = item_id;
          item_name = item_name;
          item_type = item_type;
          item_value = item_value;
          item_value_name = value_name;
          show_by_other_item_id = by_id;
          show_by_other_item_value = by_value;
          control_other_item_show = others;
        }))

  unfoldable pub items_of : ℤ → J → Text → Option (List Item)
  unfolding read_all parse_item
  items_of garbage j key = elim (member_if json json.is_array j key) [
    | none ↦ some []
    | some array ↦ read_all (parse_item garbage) (json.items array)
  ]

  abbrev author_of : Option J → Option (Option ℤ)
  author_of none = some none
  author_of (some v) = do n ← json.get_int v; some (some n)

  unfoldable pub read_config : ℤ → J → Option ClockConfig
  unfolding items_of
  read_config garbage j = do
    album ← member_or json.is_string json.get_text j (codes "AlbumShapePicId") []
    explain ← member_or json.is_string json.get_text j (codes "ClockExPlain") []
    author ← author_of (member_if json json.is_number j (codes "AuthorUserId"))
    is_my_like ← member_or json.is_number json.get_int j (codes "IsMyLike") (pos 0)
    like_cnt ← member_or json.is_number json.get_int j (codes "LikeCnt") (pos 0)
    device_id ← member_or json.is_number json.get_int j (codes "DeviceId") (pos 0)
    item_list ← items_of garbage j (codes "ItemList")
    item_list_2 ← items_of garbage j (codes "ItemList2")
    some (record {
      album_shape_pic_id = some album;
      author_user_id = author;
      clock_explain = some explain;
      is_my_like = is_my_like;
      like_cnt = like_cnt;
      device_id = device_id;
      item_list = item_list;
      item_list_2 = item_list_2;
    })

  -- What is thrown while the document is read makes `handle` return false.
  unfoldable pub get_config : ℤ → Text → Handled ClockConfig
  unfolding read_config parse_json
  get_config garbage body =
      read_document (λ j. returned (read_config garbage j)) (parse_json json body)
