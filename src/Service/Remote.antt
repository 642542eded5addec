-- ===== src/Service/Remote.antt =====
-- The device updater over the client of divoom/src/client.cpp: its four calls as requests over the
-- HTTP library, whose answers depend on the state `N` of the network. The state is `none` once the
-- program has ended in a handler that follows a null pointer; a call behind that does nothing.
pub mod Rounds
mod Tests
use divoom_dev.Prelude.{Bool, true, false, Option, none, some, List, []}
use divoom_dev.Prelude.Int.{ℤ}
use divoom_dev.Prelude.Text.{Text}
use divoom_dev.Divoom.Client.{Response, call, execute}
use divoom_dev.Divoom.Handlers as Handlers
use divoom_dev.Divoom.Commands.Members.{Member}
use divoom_dev.Divoom.Requests.{
  Sent, Handler, sent, login_request, devices_request, get_config_request, set_config_request,
}
use divoom_dev.Divoom.Types.{
  Item, ClockConfig, UserInfo, default_user_info, default_config, Reply, answered, Handled, Called,
  gives, breaks,
}
use divoom_dev.Json.{Nlohmann}
use divoom_dev.Service.Updater.{Client}

-- What the client is over.
pub record Network (J N : Type 0) : Type 0 where
  -- cpr::Get and cpr::Post
  pub send : Sent → N → N × Reply Response
  pub dump : List (Text × Member J) → Text
  pub compute_md5 : Text → Text
  pub to_json : List Item → J
  -- What an int holds that is never set.
  pub garbage : ℤ

module _ {J N : Type 0} (json : Nlohmann J) (net : Network J N) (host : Text) where
  -- The network after a call, and its answer.
  abbrev pub called : {A : Type 0} → A → N → Called A → Option N × Reply A
  called default n (gives a) = (some n, answered a)
  called default n breaks = (none, answered default)

  abbrev pub received :
      {B : Type 0} → B → (Reply Response → Called B) → N × Reply Response → Option N × Reply B
  received default answer (n, r) = called default n (answer r)

  abbrev pub perform :
      {B : Type 0} → B → (Reply Response → Called B) → Handler J → Option N → Option N × Reply B
  perform default answer handler none = (none, answered default)
  perform default answer handler (some n) =
      received default answer (net.send (sent net.dump handler host) n)

  -- The bool that execute returns.
  abbrev pub succeeded : {A : Type 0} → Called (Option A) → Called Bool
  succeeded (gives none) = gives false
  succeeded (gives (some a)) = gives true
  succeeded breaks = breaks

  abbrev pub remote : Client (Option N)
  remote = record {
    login = λ email password.
        perform default_user_info (call (Handlers.login json) default_user_info)
          (login_request net.compute_md5 email password);
    get_devices = perform [] (call (Handlers.devices json) []) devices_request;
    get_clock_config = λ device_id clock_id user.
        perform default_config (call (Handlers.get_config json net.garbage) default_config)
          (get_config_request device_id clock_id user);
    set_clock_config = λ device_id clock_id user config.
        perform false (λ r. succeeded (execute (Handlers.acknowledge json) r))
          (set_config_request net.to_json device_id clock_id user config.item_list);
  }
