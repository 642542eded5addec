-- ===== src/Divoom/Types.antt =====
-- common/include/common/device.h, divoom/include/divoom/{user_info,clock_config,exceptions}.h, and
-- what a C++ call of the client does: it returns, or throws one of its exceptions.
use divoom_dev.Prelude.{Option, none, List, []}
use divoom_dev.Prelude.Int.{ℤ, pos}
use divoom_dev.Prelude.Text.{Text}

pub record Device : Type 0 where
  pub name : Text
  pub id : ℤ
  pub private_ip : Text
  pub mac : Text
  pub hardware : ℤ

pub record UserInfo : Type 0 where
  pub token : ℤ
  pub user_id : ℤ

pub record Item : Type 0 where
  pub invisible : ℤ
  pub item_id : Text
  pub item_name : Text
  pub item_type : ℤ
  pub item_value : Text
  pub item_value_name : Text
  pub show_by_other_item_id : Text
  pub show_by_other_item_value : Text
  pub control_other_item_show : List Text

pub record ClockConfig : Type 0 where
  pub album_shape_pic_id : Option Text
  pub author_user_id : Option ℤ
  pub clock_explain : Option Text
  pub is_my_like : ℤ
  pub like_cnt : ℤ
  pub device_id : ℤ
  pub item_list : List Item
  pub item_list_2 : List Item

abbrev pub default_user_info : UserInfo
default_user_info = record { token = pos 0; user_id = pos 0 }

abbrev pub default_config : ClockConfig
default_config = record {
  album_shape_pic_id = none;
  author_user_id = none;
  clock_explain = none;
  is_my_like = pos 0;
  like_cnt = pos 0;
  device_id = pos 0;
  item_list = [];
  item_list_2 = [];
}

-- The exceptions that the updater tells apart, and any other.
pub data Failure : Type 0 where
  token_expired wrong_user wrong_password other : Failure

pub data Reply {ℓ} (A : Type ℓ) : Type ℓ where
  answered : A → Reply A
  failed : Failure → Reply A

-- What `handle` does: it returns, true with a result or false; it throws; or it follows a null
-- pointer.
pub data Handled {ℓ} (A : Type ℓ) : Type ℓ where
  returned : Option A → Handled A
  thrown : Failure → Handled A
  crashed : Handled A

-- What a call of the client does: it gives an answer, or the program ends in it.
pub data Called {ℓ} (A : Type ℓ) : Type ℓ where
  gives : A → Called A
  breaks : Called A

-- common/include/common/{clock,font}.h
pub record Clock : Type 0 where
  pub id : ℤ
  pub name : Text
  pub type : ℤ
  pub image_pixel_id : Text
  pub position : ℤ

pub record Font : Type 0 where
  pub id : ℤ
  pub type : ℤ
  pub url : Text
  pub char_set : Text
  pub encryption : Text
