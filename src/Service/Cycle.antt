-- ===== src/Service/Cycle.antt =====
-- One cycle of the service: get_db_info and process_cycle of service/src/core/service.cpp, and what
-- `run` does with their exceptions. The storage is the interface of storage/i_storage.h.
pub mod Lines
mod Tests
use divoom_dev.Prelude.{ℕ, suc, Bool, true, false, Option, none, some, List, [], ◌∷◌, ◌++◌, map}
use divoom_dev.Prelude.Decimal.{decimal}
use divoom_dev.Prelude.Int.{ℤ, pos, negsuc}
use divoom_dev.Prelude.Text.{Text, codes}
use divoom_dev.Ics.Chrono.{Chrono}
use divoom_dev.Ics.Event.{ScheduledEvent}
use divoom_dev.Ics.Manager as Manager
use divoom_dev.Ics.TextUtils.{Outcome, returns, throws}
use divoom_dev.Jenkins.Builds as Jenkins
use divoom_dev.Jira as Jira
use divoom_dev.Json.{Nlohmann}
use divoom_dev.Service.Formatter.{format_scheduled, default_message}
use divoom_dev.Service.Updater.{Updater, Client, update, update_credentials}
use divoom_dev.Storage.{Account, CalendarSource}

-- What the service reads of i_settings_storage.
pub record Settings : Type 0 where
  pub get_account : Text → Option Account
  pub get_meta : Text → Option Text
  pub list_calendar_sources : List CalendarSource

-- std::to_string
unfoldable pub to_string : ℤ → Text
to_string (pos n) = decimal n
to_string (negsuc n) = codes "-" ++ decimal (suc n)

-- " - Нет задач в Jira\n" and " - Нет сборок в Jenkins\n", in UTF-8
abbrev pub no_issues : Text
no_issues =
    codes " - "
    ++ (208 ∷ 157 ∷ 208 ∷ 181 ∷ 209 ∷ 130 ∷ 32 ∷ 208 ∷ 183 ∷ 208 ∷ 176 ∷ 208 ∷ 180 ∷ 208 ∷ 176 ∷ 209
        ∷ 135 ∷ [])
    ++ (32 ∷ 208 ∷ 178 ∷ [])
    ++ codes " Jira\n"

abbrev pub no_builds : Text
no_builds =
    codes " - "
    ++ (208 ∷ 157 ∷ 208 ∷ 181 ∷ 209 ∷ 130 ∷ 32 ∷ 209 ∷ 129 ∷ 208 ∷ 177 ∷ 208 ∷ 190 ∷ 209 ∷ 128 ∷ 208
        ∷ 190 ∷ 208 ∷ 186 ∷ [])
    ++ (32 ∷ 208 ∷ 178 ∷ [])
    ++ codes " Jenkins\n"

abbrev pub issue_line : Jira.Issue → Text
issue_line item = item.key ++ codes ": " ++ item.summary ++ codes "\n"

abbrev pub build_line : Jenkins.BuildInfo → Text
build_line item =
    to_string item.number ++ codes ": " ++ item.result ++ codes " (" ++ item.status ++ codes ")\n"

-- `for (auto& item: result) text += line(item);`
unfoldable pub append_lines : {A : Type 0} → (A → Text) → Text → List A → Text
append_lines line text [] = text
append_lines line text (item ∷ items) = append_lines line (text ++ line item) items

unfoldable pub add_issues : Text → List Jira.Issue → Text
unfolding append_lines
add_issues text [] = text ++ no_issues
add_issues text (item ∷ items) = append_lines issue_line text (item ∷ items)

unfoldable pub add_builds : Text → List Jenkins.BuildInfo → Text
unfolding append_lines
add_builds text [] = text ++ no_builds
add_builds text (item ∷ items) = append_lines build_line text (item ∷ items)

abbrev pub jobs : List Text
jobs =
    codes "build/job/custom/job/windows/job/git"
    ∷ codes "build/job/custom/job/debian/job/git"
    ∷ codes "build/job/custom/job/rockchip/job/git"
    ∷ codes "build/job/custom/job/lnvr/job/git"
    ∷ []

module _ {J : Type 0} (json : Nlohmann J) (settings : Settings) where
  abbrev pub jira_config : Text → Account → Jira.Config
  jira_config url account = record {
    base_url = url;
    email = account.login;
    api_token = account.password;
    timeout_seconds = pos 30;
  }

  abbrev pub jenkins_config : Text → Account → Jenkins.Config
  jenkins_config url account = record {
    base_url = url;
    username = account.login;
    api_token = account.password;
    timeout_seconds = pos 30;
  }

  abbrev pub issues_added : Text → Jira.Attempt (List Jira.Issue) → Jira.Attempt Text
  issues_added text (Jira.returned issues) = Jira.returned (add_issues text issues)
  issues_added text Jira.threw = Jira.threw
  issues_added text Jira.undefined = Jira.undefined

  unfoldable pub with_jira : (Jira.Request → Jira.Response) → Text → Jira.Attempt Text
  unfolding add_issues
  with_jira get text = elim (settings.get_account (codes "jira")) [
    | none ↦ Jira.returned text
    | some account ↦ elim (settings.get_meta (codes "jira_url")) [
      | none ↦ Jira.returned text
      | some url ↦
          issues_added text (Jira.get_active_user_issues json get (jira_config url account) [] [])
    ]
  ]

  -- The builds of each job, in the order of the jobs.
  abbrev pub builds_of_jobs :
      (Jenkins.Request → Jenkins.Response) → Jenkins.Config → List Text → List Jenkins.BuildInfo
  builds_of_jobs get config [] = []
  builds_of_jobs get config (job ∷ rest) =
      Jenkins.get_user_builds json get config job config.username (pos 100)
      ++ builds_of_jobs get config rest

  unfoldable pub with_jenkins : (Jenkins.Request → Jenkins.Response) → Text → Text
  unfolding add_builds
  with_jenkins get text = elim (settings.get_account (codes "jenkins")) [
    | none ↦ text
    | some account ↦ elim (settings.get_meta (codes "jenkins_url")) [
      | none ↦ text
      | some url ↦ add_builds text (builds_of_jobs get (jenkins_config url account) jobs)
    ]
  ]

abbrev pub with_sources : Manager.Manager → List CalendarSource → Manager.Manager
with_sources m [] = m
with_sources m (item ∷ items) = with_sources (Manager.add_calendar_url m item.url) items

-- The storage is there.
unfoldable pub get_db_info :
    {S : Type 0}
    → Client S
    → Settings
    → Manager.Manager
    → Updater
    → S
    → Manager.Manager × Updater × S
unfolding update_credentials
get_db_info client settings m u s =
    let next = with_sources m settings.list_calendar_sources in
    elim (settings.get_account (codes "divoom")) [
      | none ↦ (next, u, s)
      | some account ↦
          let changed = update_credentials client u account.login account.password s in
          (next, changed.0, changed.1)
    ]

-- What a cycle reads of the outside world.
pub record Outside : Type 0 where
  pub calendars : Manager.World
  pub now : ℤ
  pub jira : Jira.Request → Jira.Response
  pub jenkins : Jenkins.Request → Jenkins.Response

-- How a cycle ends in the loop of `run`, which goes on after an exception too.
pub data Ended (S : Type 0) : Type 0 where
  ended : Manager.Manager → Updater → S → Ended S
  undefined : Ended S

module _ {J S : Type 0} (json : Nlohmann J) (c : Chrono) (tick_ms : ℕ) (client : Client S)
    (hash : Text → ℕ) (settings : Settings) (outside : Outside) where
  abbrev pub updated : Manager.Manager → Option (Updater × S) → Option (Ended S)
  updated m none = none
  updated m (some (u, s)) = some (ended m u s)

  abbrev pub show_text : ℕ → Text → Manager.Manager → Updater → S → Option (Ended S)
  show_text fuel text m u s = updated m (update client hash text fuel u s)

  abbrev pub after_jira : ℕ → Jira.Attempt Text → Manager.Manager → Updater → S → Option (Ended S)
  after_jira fuel (Jira.returned text) m u s =
      show_text fuel (with_jenkins json settings outside.jenkins text) m u s
  after_jira fuel Jira.threw m u s = some (ended m u s)
  after_jira fuel Jira.undefined m u s = some undefined

  abbrev pub after_events :
      ℕ → Manager.Manager × Outcome (List ScheduledEvent) → Updater → S → Option (Ended S)
  after_events fuel (m, returns events) u s =
      after_jira fuel
        (with_jira json settings outside.jira (format_scheduled c default_message events)) m u s
  after_events fuel (m, throws e) u s = some (ended m u s)

  -- None when the fuel does not suffice for the logins of the updater.
  unfoldable pub process_cycle : ℕ → Manager.Manager → Updater → S → Option (Ended S)
  process_cycle fuel m u s =
      after_events fuel (Manager.get_next_events c tick_ms outside.calendars outside.now m) u s

  unfoldable pub run_once : ℕ → Manager.Manager → Updater → S → Option (Ended S)
  unfolding get_db_info process_cycle
  run_once fuel m u s =
      let next = get_db_info client settings m u s in process_cycle fuel next.0 next.1 next.2
