-- ===== src/Service/Cycle/Lines.antt =====
-- The text that a cycle shows, as a list of lines.
use divoom_dev.Prelude.{ℕ, ◌≡◌, refl, ap, ◌∙◌, sym, some, List, [], ◌∷◌, ◌++◌, map, concat}
use divoom_dev.Prelude.Text.{Text, codes}
use divoom_dev.Common.{Event}
use divoom_dev.Ics.Chrono.{Chrono}
use divoom_dev.Ics.Event.{ScheduledEvent}
use divoom_dev.Ics.Manager as Manager
use divoom_dev.Ics.TextUtils.{returns}
use divoom_dev.Jenkins.Builds as Jenkins
use divoom_dev.Jira as Jira
use divoom_dev.Json.{Nlohmann}
use divoom_dev.Service.Formatter.{
  format, format_events, format_event, format_scheduled, default_message,
}
use divoom_dev.Service.Updater.{Updater, Client}
use divoom_dev.Service.Cycle.{
  Settings, issues_added, Outside, append_lines, add_issues, add_builds, with_jira, with_jenkins,
  jira_config, jenkins_config, builds_of_jobs, jobs, issue_line, build_line, no_issues, no_builds,
  process_cycle, after_events, after_jira, show_text,
}
use divoom_dev.Storage.{Account}

-- A line for each, or the message where there is none.
abbrev pub lines_or : {A : Type 0} → Text → (A → Text) → List A → Text
lines_or message line [] = message
lines_or message line (x ∷ xs) = concat (map line (x ∷ xs))

++_assoc : (a b c : Text) → a ++ b ++ c ≡ a ++ (b ++ c)
++_assoc [] b c = refl
++_assoc (x ∷ a) b c = ap (λ r. x ∷ r) (++_assoc a b c)

++_nil : (a : Text) → a ++ [] ≡ a
++_nil [] = refl
++_nil (x ∷ a) = ap (λ r. x ∷ r) (++_nil a)

append_lines_lem :
    {A : Type 0} (line : A → Text) (text : Text) (items : List A)
    → append_lines line text items ≡ text ++ concat (map line items)
unfolding append_lines
append_lines_lem line text [] = sym (++_nil text)
append_lines_lem line text (x ∷ items) =
    append_lines_lem line (text ++ line x) items ∙ ++_assoc text (line x) (concat (map line items))

add_issues_lem :
    (text : Text) (issues : List Jira.Issue)
    → add_issues text issues ≡ text ++ lines_or no_issues issue_line issues
unfolding add_issues
add_issues_lem text [] = refl
add_issues_lem text (x ∷ issues) = append_lines_lem issue_line text (x ∷ issues)

add_builds_lem :
    (text : Text) (builds : List Jenkins.BuildInfo)
    → add_builds text builds ≡ text ++ lines_or no_builds build_line builds
unfolding add_builds
add_builds_lem text [] = refl
add_builds_lem text (x ∷ builds) = append_lines_lem build_line text (x ∷ builds)

module _ (c : Chrono) where
  format_events_lem :
      (text : Text) (events : List Event)
      → format_events c text events ≡ text ++ concat (map (format_event c) events)
  format_events_lem text [] = sym (++_nil text)
  format_events_lem text (e ∷ events) =
      format_events_lem (text ++ format_event c e) events
      ∙ ++_assoc text (format_event c e) (concat (map (format_event c) events))

  format_lem :
      (message : Text) (events : List Event)
      → format c message events ≡ lines_or message (format_event c) events
  unfolding format
  format_lem message [] = refl
  format_lem message (e ∷ events) = format_events_lem [] (e ∷ events)

module _ {J S : Type 0} (json : Nlohmann J) (c : Chrono) (tick_ms : ℕ) (client : Client S)
    (hash : Text → ℕ) (settings : Settings) (outside : Outside) where
  -- The text of events, issues and builds.
  abbrev pub shown : List ScheduledEvent → List Jira.Issue → List Jenkins.BuildInfo → Text
  shown events issues builds =
      lines_or default_message (format_event c) (map (λ e. e.event) events)
      ++ lines_or no_issues issue_line issues
      ++ lines_or no_builds build_line builds

  with_jira-lines :
      (text : Text) (issues : List Jira.Issue) (account : Account) (url : Text)
      → settings.get_account (codes "jira") ≡ some account
      → settings.get_meta (codes "jira_url") ≡ some url
      → Jira.get_active_user_issues json outside.jira (jira_config json settings url account) [] []
        ≡ Jira.returned issues
      → with_jira json settings outside.jira text
        ≡ Jira.returned (text ++ lines_or no_issues issue_line issues)
  unfolding with_jira
  with_jira-lines text issues account url a h i =
      rw (with_jira, a, h)
        (ap (issues_added json settings text) i ∙ ap Jira.returned (add_issues_lem text issues))

  with_jenkins-lines :
      (text : Text) (account : Account) (url : Text)
      → settings.get_account (codes "jenkins") ≡ some account
      → settings.get_meta (codes "jenkins_url") ≡ some url
      → with_jenkins json settings outside.jenkins text
        ≡ text
          ++ lines_or no_builds build_line (
              builds_of_jobs json settings outside.jenkins
                (jenkins_config json settings url account)
                jobs)
  unfolding with_jenkins
  with_jenkins-lines text account url a h = rw (with_jenkins, a, h) (add_builds_lem text _)

  -- With an account and an url for Jira and for Jenkins in the storage, when the calendars give
  -- events and Jira answers with issues: what process_cycle hands to the updater is a line for each event,
  -- then one for each issue, then one for each build of the four jobs; where there are none of a
  -- kind, its message stands in their place, that of the events without an end of line.
  pub process_cycle-shown :
      (fuel : ℕ) (m n : Manager.Manager) (u : Updater) (s : S) (events : List ScheduledEvent)
      (issues : List Jira.Issue) (jira jenkins : Account) (jira_url jenkins_url : Text)
      → Manager.get_next_events c tick_ms outside.calendars outside.now m ≡ (n, returns events)
      → settings.get_account (codes "jira") ≡ some jira
      → settings.get_meta (codes "jira_url") ≡ some jira_url
      → settings.get_account (codes "jenkins") ≡ some jenkins
      → settings.get_meta (codes "jenkins_url") ≡ some jenkins_url
      → Jira.get_active_user_issues json outside.jira
          (jira_config json settings jira_url jira)
          []
          []
        ≡ Jira.returned issues
      → process_cycle json c tick_ms client hash settings outside fuel m u s
        ≡ show_text json c tick_ms client hash settings outside fuel
            (shown events issues (
              builds_of_jobs json settings outside.jenkins
                (jenkins_config json settings jenkins_url jenkins)
                jobs))
            n
            u
            s
  unfolding process_cycle format_scheduled
  process_cycle-shown fuel m n u s events issues jira jenkins jira_url jenkins_url e ja ju ka ku i =
      let lines = lines_or default_message (format_event c) (map (λ x. x.event) events) in
      ap (λ r. after_events json c tick_ms client hash settings outside fuel r u s) e
      ∙ ap
          (λ t.
            after_jira json c tick_ms client hash settings outside fuel
              (with_jira json settings outside.jira t) n u s)
          (format_lem c default_message (map (λ x. x.event) events))
      ∙ ap (λ t. after_jira json c tick_ms client hash settings outside fuel t n u s)
          (with_jira-lines lines issues jira jira_url ja ju i)
      ∙ ap (λ t. show_text json c tick_ms client hash settings outside fuel t n u s)
          (with_jenkins-lines (lines ++ lines_or no_issues issue_line issues) jenkins jenkins_url ka
            ku)
