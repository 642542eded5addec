-- ===== src/Service/Cycle/Tests.antt =====
-- A cycle without events, over servers that answer with one document: one issue and no builds.
use divoom_dev.Prelude.{ℕ, ◌≡◌, refl, true, false, none, some, [], ◌∷◌}
use divoom_dev.Prelude.Int.{pos}
use divoom_dev.Prelude.Sort.{sort}
use divoom_dev.Prelude.Text.{codes, text_eq, find_text}
use divoom_dev.Divoom.Types.{answered, default_user_info, default_config}
use divoom_dev.Ics.Manager as Manager
use divoom_dev.Ics.Sample.{utc, monday_morning, two_days}
use divoom_dev.Jira as Jira
use divoom_dev.Json.{Nlohmann}
use divoom_dev.Json.Sample.{Doc, text, array, object, nil, cons, member, end, over}
use divoom_dev.Service.Updater.{Client, init}
use divoom_dev.Service.Cycle.{
  Settings, Outside, process_cycle, show_text, builds_of_jobs, jenkins_config, jobs,
}
use divoom_dev.Service.Cycle.Lines.{shown, process_cycle-shown}
use divoom_dev.Storage.{Account}

abbrev issue : Doc
issue = object (
    member (codes "key") (text (codes "P-1"))
      (member (codes "fields") (object (member (codes "summary") (text (codes "Fix")) end)) end))

abbrev answer : Nlohmann Doc
answer = over (λ body. some (object (member (codes "issues") (array (cons issue nil)) end)))

abbrev account : Account
account = record { service = []; login = codes "bob"; password = codes "t" }

abbrev settings : Settings
settings = record {
  get_account = λ service. some account;
  get_meta = λ key. some (codes "http://x");
  list_calendar_sources = [];
}

abbrev world : Manager.World
world = record {
  fetch = λ u. [];
  get_at = λ u. monday_morning;
  put_at = λ u. monday_morning;
  stale_at = λ u. monday_morning;
  parse_at = λ u. monday_morning;
}

abbrev outside : Outside
outside = record {
  calendars = world;
  now = monday_morning;
  jira = λ request. record { status_code = pos 200; text = codes "{}" };
  jenkins = λ request. record { text = codes "{}"; error = false };
}

abbrev manager : Manager.Manager
manager = Manager.init false none two_days

abbrev client : Client ℕ
client = record {
  login = λ l p s. (s, answered default_user_info);
  get_devices = λ s. (s, answered []);
  get_clock_config = λ id clock user s. (s, answered default_config);
  set_clock_config = λ id clock user c s. (s, answered true);
}

abbrev fix : Jira.Issue
fix = record {
  key = codes "P-1";
  link = codes "N/A";
  summary = codes "Fix";
  status = [];
  assignee = codes "Unassigned";
}

process_cycle-shown_example :
    process_cycle answer utc 1 client (λ s. 7) settings outside 3 manager (init [] []) 0
    ≡ show_text answer utc 1 client
        (λ s. 7)
        settings
        outside
        3
        (shown answer utc 1 client
          (λ s. 7)
          settings
          outside
          []
          (fix ∷ [])
          (builds_of_jobs answer settings outside.jenkins
            (jenkins_config answer settings (codes "http://x") account)
            jobs))
        manager
        (init [] [])
        0
unfolding Manager.get_next_events Jira.get_active_user_issues Jira.read_issue text_eq find_text
    Manager.load_from_sources sort
process_cycle-shown_example =
    process_cycle-shown answer utc 1 client (λ s. 7) settings outside 3 manager manager (init [] [])
      0 [] (fix ∷ []) account account (codes "http://x") (codes "http://x") refl refl refl refl refl
      refl
