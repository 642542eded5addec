-- ===== src/Service/Updater/Tests.antt =====
-- The updater with three servers: one that stores, one that refuses, and one whose tokens expire.
use divoom_dev.Prelude.{ℕ, suc, true, false, some, [], ◌∷◌, if◌then◌else◌}
use divoom_dev.Prelude.Int.{ℤ, pos, eq_ℤ}
use divoom_dev.Prelude.Text.{codes}
use divoom_dev.Divoom.Types.{
  Device, ClockConfig, answered, failed, token_expired, default_user_info, default_config,
}
use divoom_dev.Service.Updater.{Client, Updater, init}
use divoom_dev.Service.Updater.Shows.{Shows}

abbrev pixoo : Device
pixoo = record { name = codes "p"; id = pos 1; private_ip = []; mac = []; hardware = pos 0 }

abbrev known : Updater
known = record (init [] []) { user_info = some default_user_info; devices = some (pixoo ∷ []) }

abbrev Shelf : Type 0
Shelf = ℤ → ClockConfig

abbrev stored : ℤ → ClockConfig → Shelf → Shelf
stored id c s j = if eq_ℤ id j then c else s j

abbrev storing : Client Shelf
storing = record {
  login = λ l p s. (s, answered default_user_info);
  get_devices = λ s. (s, answered (pixoo ∷ []));
  get_clock_config = λ id clock user s. (s, answered (s id));
  set_clock_config = λ id clock user c s. (stored id c s, answered true);
}

abbrev showing : Shelf → ℤ → ClockConfig
showing s id = s id

abbrev blank : Shelf
blank id = record default_config {
  item_list =
      record {
        invisible = pos 0;
        item_id = [];
        item_name = [];
        item_type = pos 25;
        item_value = [];
        item_value_name = [];
        show_by_other_item_id = [];
        show_by_other_item_value = [];
        control_other_item_show = [];
      }
      ∷ [];
}

-- Refuses every configuration; counts the calls.
abbrev refusing : Client ℕ
refusing = record {
  login = λ l p n. (suc n, answered default_user_info);
  get_devices = λ n. (suc n, answered (pixoo ∷ []));
  get_clock_config = λ id clock user n. (suc n, answered default_config);
  set_clock_config = λ id clock user c n. (suc n, answered false);
}

-- Its tokens expire at once.
abbrev expiring : Client ℕ
expiring = record refusing { get_clock_config = λ id clock user n. (suc n, failed token_expired) }
