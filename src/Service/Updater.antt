-- ===== src/Service/Updater.antt =====
-- service/src/core/device_updater.cpp. The client is an interface to the outside world, whose state
-- its calls take and return. `update` calls itself after a login, so it runs on fuel.
pub mod Shows
pub mod Retry
mod Tests
use divoom_dev.Prelude.{
  ℕ, zero, suc, Bool, true, false, ◌||◌, not, Option, none, some, List, [], ◌∷◌, map, if◌then◌else◌,
  ◌==◌,
}
use divoom_dev.Prelude.Int.{ℤ, pos, eq_ℤ}
use divoom_dev.Prelude.Text.{Text, text_eq}
use divoom_dev.Divoom.Types.{
  Device, UserInfo, Item, ClockConfig, Failure, token_expired, wrong_user, wrong_password, other,
  Reply, answered, failed,
}

-- The calls of divoom::client that the updater makes.
pub record Client (S : Type 0) : Type 0 where
  pub login : Text → Text → S → S × Reply UserInfo
  pub get_devices : S → S × Reply (List Device)
  pub get_clock_config : ℤ → ℤ → UserInfo → S → S × Reply ClockConfig
  pub set_clock_config : ℤ → ℤ → UserInfo → ClockConfig → S → S × Reply Bool

pub record Updater : Type 0 where
  pub login : Text
  pub password : Text
  pub previous_text_hash : ℕ
  pub user_info : Option UserInfo
  pub devices : Option (List Device)

-- device_updater(login, password)
abbrev pub init : Text → Text → Updater
init login password = record {
  login = login;
  password = password;
  previous_text_hash = 0;
  user_info = none;
  devices = none;
}

abbrev pub set_item : Text → Item → Item
set_item text item =
    if eq_ℤ item.item_type (pos 25) then record item { item_value = text } else item

-- The configuration that shows a text.
unfoldable pub with_text : Text → ClockConfig → ClockConfig
with_text text config = record config { item_list = map (set_item text) config.item_list }

abbrev pub current_clock_id : ℤ
current_clock_id = pos 598

-- Which exceptions make `update` log in again.
abbrev pub is_login_failure : Failure → Bool
is_login_failure other = false
is_login_failure _ = true

module _ {S : Type 0} (client : Client S) where
  abbrev pub logged : S × Reply Bool → S × Reply (Unit {0})
  logged (s, answered ok) = (s, answered tt)
  logged (s, failed e) = (s, failed e)

  abbrev pub push : UserInfo → Text → ℤ → S × Reply ClockConfig → S × Reply (Unit {0})
  push user text id (s, answered config) =
      logged (client.set_clock_config id current_clock_id user (with_text text config) s)
  push user text id (s, failed e) = (s, failed e)

  unfoldable pub update_device : UserInfo → Text → ℤ → S → S × Reply (Unit {0})
  update_device user text id s =
      push user text id (client.get_clock_config id current_clock_id user s)

  abbrev pub and_then : S × Reply (Unit {0}) → (S → S × Reply (Unit {0})) → S × Reply (Unit {0})
  and_then (s, answered _) rest = rest s
  and_then (s, failed e) rest = (s, failed e)

  -- The loop over the devices; what is thrown ends it.
  unfoldable pub update_devices : UserInfo → Text → List Device → S → S × Reply (Unit {0})
  update_devices user text [] s = (s, answered tt)
  update_devices user text (d ∷ devices) s =
      and_then (update_device user text d.id s) (update_devices user text devices)

  abbrev pub logged_in : Updater → S × Reply UserInfo → Updater × S × Bool
  logged_in u (s, answered user) = (record u { user_info = some user }, s, true)
  logged_in u (s, failed e) = (u, s, false)

  unfoldable pub log_in : Updater → S → Updater × S × Bool
  log_in u s = logged_in u (client.login u.login u.password s)

  abbrev pub found : Updater → S × Reply (List Device) → Updater × S
  found u (s, answered devices) = (record u { devices = some devices }, s)
  found u (s, failed e) = (u, s)

  unfoldable pub get_devices : Updater → S → Updater × S
  get_devices u s = found u (client.get_devices s)

  abbrev then_devices : Updater × S × Bool → Updater × S
  then_devices (u, s, ok) = get_devices u s

  unfoldable pub update_credentials : Updater → Text → Text → S → Updater × S
  unfolding log_in get_devices
  update_credentials u login password s =
      let need_reauth = not (text_eq u.login login) || not (text_eq u.password password) in
      let next = record u { login = login; password = password } in
      if need_reauth then then_devices (log_in next s) else (next, s)

  -- What follows the loop over the devices: the hash is noted, or the exception is handled.
  -- The last component tells whether `retry_with_login` is called.
  abbrev pub noted : Updater → ℕ → S × Reply (Unit {0}) → Updater × S × Bool
  noted u h (s, answered _) = (record u { previous_text_hash = h }, s, false)
  noted u h (s, failed e) = (u, s, is_login_failure e)

  abbrev pub with_devices :
      Updater → ℕ → Text → Option (List Device) → Option UserInfo → S → Updater × S × Bool
  with_devices u h text (some devices) (some user) s =
      noted u h (update_devices user text devices s)
  with_devices u h text none user s = (u, s, false)
  with_devices u h text (some devices) none s = (u, s, false)

  -- `update` up to the call of `retry_with_login`; `h` is the hash of the text.
  unfoldable pub attempt : ℕ → Text → Updater → S → Updater × S × Bool
  attempt h text u s =
      if h == u.previous_text_hash
      then (u, s, false)
      else with_devices u h text u.devices u.user_info s

  abbrev pub after_login :
      Updater × S × Bool → (Updater → S → Option (Updater × S)) → Option (Updater × S)
  after_login (u, s, true) again = let next = get_devices u s in again next.0 next.1
  after_login (u, s, false) again = some (u, s)

  abbrev pub retry :
      Updater × S × Bool → (Updater → S → Option (Updater × S)) → Option (Updater × S)
  retry (u, s, true) again = after_login (log_in u s) again
  retry (u, s, false) again = some (u, s)

  module _ (hash : Text → ℕ) (text : Text) where
    -- None when the fuel does not suffice for the logins.
    unfoldable pub update : ℕ → Updater → S → Option (Updater × S)
    update zero u s = none
    update (suc fuel) u s = retry (attempt (hash text) text u s) (update fuel)
