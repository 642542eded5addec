-- ===== src/Service/Core/Tests.antt =====
-- Two cycles, between which a calendar source is removed.
use divoom_dev.Prelude.{ℕ, ◌*◌, ◌≡◌, true, false, Option, none, some, List, [], ◌∷◌, arith}
use divoom_dev.Prelude.Int.{pos}
use divoom_dev.Prelude.Map.{insert_key}
use divoom_dev.Prelude.Text.{Text, codes, text_eq, text_lt}
use divoom_dev.Divoom.Types.{answered, default_user_info, default_config}
use divoom_dev.Ics.Manager as Manager
use divoom_dev.Ics.Sample.{utc, monday_morning}
use divoom_dev.Ics.Window.{default_settings}
use divoom_dev.Json.{Nlohmann}
use divoom_dev.Json.Sample.{Doc, object, end, over}
use divoom_dev.Service.Core.{Core, wait_rounds, run_cycles}
use divoom_dev.Service.Core.Urls.{EndsWith, run_cycles-urls}
use divoom_dev.Service.Cycle.{Settings, Outside}
use divoom_dev.Service.Updater.{Client}
use divoom_dev.Service.Updater as Updater
use divoom_dev.Storage.{CalendarSource}

abbrev nothing : Nlohmann Doc
nothing = over (λ body. some (object end))

abbrev source : Text → CalendarSource
source url = record { url = url; priority = pos 0; enabled = true }

abbrev settings : List CalendarSource → Settings
settings sources = record {
  get_account = λ service. none;
  get_meta = λ key. none;
  list_calendar_sources = sources;
}

abbrev outside : Outside
outside = record {
  calendars = record {
    fetch = λ u. [];
    get_at = λ u. monday_morning;
    put_at = λ u. monday_morning;
    stale_at = λ u. monday_morning;
    parse_at = λ u. monday_morning;
  };
  now = monday_morning;
  jira = λ request. record { status_code = pos 200; text = codes "{}" };
  jenkins = λ request. record { text = codes "{}"; error = false };
}

abbrev days : List (Option Settings × Outside)
days =
    (some (settings (source (codes "b") ∷ source (codes "a") ∷ [])), outside)
    ∷ (some (settings (source (codes "b") ∷ [])), outside)
    ∷ []

abbrev client : Client ℕ
client = record {
  login = λ l p s. (s, answered default_user_info);
  get_devices = λ s. (s, answered []);
  get_clock_config = λ id clock user s. (s, answered default_config);
  set_clock_config = λ id clock user c s. (s, answered true);
}

run_cycles-urls_example : EndsWith (codes "a" ∷ codes "b" ∷ []) (
    run_cycles nothing utc 1000 client
      (λ t. 7)
      1
      days
      (Manager.init true none default_settings)
      (Updater.init [] [])
      0)
unfolding insert_key text_eq text_lt
run_cycles-urls_example =
    run_cycles-urls nothing utc 1000 client (λ t. 7) 1 days
      (Manager.init true none default_settings) (Updater.init [] []) 0

-- The rounds of the wait, of 100 ms each, make the interval.
wait_test : (core : Core) → wait_rounds core * 100 ≡ core.update_interval * 60000
unfolding wait_rounds
wait_test core = omega arith
