-- ===== src/Service/Remote/Tests.antt =====
-- A server that takes the token to be expired, every time.
use divoom_dev.Prelude.{ℕ, suc, ◌≡◌, false, some, [], ◌∷◌}
use divoom_dev.Prelude.Int.{pos}
use divoom_dev.Prelude.Text.{codes}
use divoom_dev.Divoom.Types.{Device, answered, default_user_info}
use divoom_dev.Json.{Nlohmann}
use divoom_dev.Json.Sample.{Doc, num, object, member, end, over}
use divoom_dev.Service.Remote.{Network, remote}
use divoom_dev.Service.Remote.Rounds.{update-remote}
use divoom_dev.Service.Updater.{Updater, init, update}

abbrev expired : Nlohmann Doc
expired = over (λ body. some (object (member (codes "ReturnCode") (num (pos 11)) end)))

-- It counts the requests.
abbrev network : Network Doc ℕ
network = record {
  send = λ request n. (suc n, answered (record { error = false; status_code = 200; text = [] }));
  dump = λ members. [];
  compute_md5 = λ t. t;
  to_json = λ items. object end;
  garbage = pos 0;
}

abbrev device : Device
device = record { name = codes "frame"; id = pos 7; private_ip = []; mac = []; hardware = pos 0 }

abbrev updater : Updater
updater = record (init [] []) { user_info = some default_user_info; devices = some (device ∷ []) }

update-remote_example :
    (last : Updater) × (next : ℕ) × (update
        (remote expired network (codes "host"))
        (λ t. 7)
        (codes "now")
        1
        updater
        (some 0)
      ≡ some (last, some next))
update-remote_example =
    update-remote expired network (codes "host") (λ t. 7) (codes "now") 0 updater 0
