-- ===== src/Jira/Tests.antt =====
-- Responses with an issue and an element that throws, and without "issues".
use divoom_dev.Prelude.{◌≡◌, refl, inl, inr, some, [], ◌∷◌}
use divoom_dev.Prelude.Int.{pos}
use divoom_dev.Prelude.Text.{codes, text_eq, find_text}
use divoom_dev.Json.{Nlohmann}
use divoom_dev.Json.Sample.{Doc, null, text, array, object, nil, cons, member, end, over}
use divoom_dev.Jira.{
  Config, Request, Response, returned, undefined, get_active_user_issues, read_issue,
}
use divoom_dev.Jira.Reading.{before_thrown, get_active_user_issues-issues_of}

abbrev task : Doc
task = object (member (codes "key") (text (codes "P-1")) (member (codes "fields") (object end) end))

abbrev tasks : Doc
tasks = array (cons task (cons null nil))

abbrev sample : Nlohmann Doc
sample = over (λ body. some (object (member (codes "issues") tasks end)))

abbrev without_issues : Nlohmann Doc
without_issues = over (λ body. some (object end))

abbrev config : Config
config = record {
  base_url = codes "https://j";
  email = [];
  api_token = codes "t";
  timeout_seconds = pos 30;
}

abbrev get : Request → Response
get request = record { status_code = pos 200; text = codes "{}" }

get_active_user_issues-issues_of_example :
    get_active_user_issues sample get config [] []
    ≡ returned (before_thrown sample (task ∷ null ∷ []))
unfolding find_text text_eq
get_active_user_issues-issues_of_example =
    get_active_user_issues-issues_of sample get config [] []
      (object (member (codes "issues") tasks end)) refl refl refl refl
      (inr (object end, refl), (inl refl, tt))

one_issue :
    get_active_user_issues sample get config [] []
    ≡ returned (
        record {
          key = codes "P-1";
          link = codes "N/A";
          summary = codes "No Summary";
          status = [];
          assignee = codes "Unassigned";
        }
        ∷ [])
unfolding get_active_user_issues text_eq read_issue
one_issue = refl

no_issues : get_active_user_issues without_issues get config [] [] ≡ undefined
unfolding get_active_user_issues text_eq
no_issues = refl
