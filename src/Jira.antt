-- ===== src/Jira.antt =====
-- The Jira client: plugins/jira/src/client.cpp and plugins/jira/include. The HTTP library is the
-- parameter `get`. The operator [] of a const JSON value is undefined on a member that is not
-- there.
pub mod Reading
mod Tests
use divoom_dev.Prelude.{
  ℕ, Bool, true, false, not, Option, none, some, List, [], ◌∷◌, ◌++◌, if◌then◌else◌,
}
use divoom_dev.Prelude.Int.{ℤ, pos, ◌*ℤ◌, eq_ℤ}
use divoom_dev.Prelude.Text.{Text, codes, is_empty, find_text}
use divoom_dev.Json.{Nlohmann, contains, value}

pub record Issue : Type 0 where
  pub key : Text
  pub link : Text
  pub summary : Text
  pub status : Text
  pub assignee : Text

pub record Config : Type 0 where
  pub base_url : Text
  pub email : Text
  pub api_token : Text
  pub timeout_seconds : ℤ

pub record Request : Type 0 where
  pub url : Text
  pub header : List (Text × Text)
  pub parameters : List (Text × Text)
  pub verify_host : Bool
  pub verify_peer : Bool
  pub timeout : ℤ

pub record Response : Type 0 where
  pub status_code : ℤ
  pub text : Text

-- A step returns, throws, or its behaviour is undefined.
pub data Attempt {ℓ} (A : Type ℓ) : Type ℓ where
  returned : A → Attempt A
  threw : Attempt A
  undefined : Attempt A

infixl 5 ◌>>=◌
abbrev pub ◌>>=◌ {ℓ κ} : {A : Type ℓ} {B : Type κ} → Attempt A → (A → Attempt B) → Attempt B
returned a >>= f = f a
threw >>= f = threw
undefined >>= f = undefined

abbrev pub or_threw {ℓ} : {A : Type ℓ} → Option A → Attempt A
or_threw none = threw
or_threw (some a) = returned a

-- What is returned where throwing ends a loop.
abbrev pub or_nothing {ℓ} : {A : Type ℓ} → Attempt (List A) → Attempt (List A)
or_nothing threw = returned []
or_nothing a = a

-- "assignee=currentUser() AND Спринт in openSprints()", in UTF-8
abbrev assigned : Text
assigned =
    codes "assignee=currentUser() AND "
    ++ (208 ∷ 161 ∷ 208 ∷ 191 ∷ 209 ∷ 128 ∷ 208 ∷ 184 ∷ 208 ∷ 189 ∷ 209 ∷ 130 ∷ [])
    ++ codes " in openSprints()"

unfoldable pub base_jql : Text → Text → Text
base_jql extra_filter order_by =
    assigned
    ++ (if not (is_empty extra_filter) then codes " AND (" ++ extra_filter ++ codes ")" else [])
    ++ (if not (is_empty order_by) then codes " ORDER BY " ++ order_by else [])

unfoldable pub issues_request : Config → Text → Text → Request
unfolding base_jql
issues_request config extra_filter order_by = record {
  url = config.base_url ++ codes "/rest/api/latest/search";
  header =
      (codes "Content-Type", codes "application/json")
      ∷ (codes "Accept", codes "application/json")
      ∷ (codes "Authorization", codes "Bearer " ++ config.api_token)
      ∷ (codes "X-Atlassian-Token", codes "no-check")
      ∷ [];
  parameters =
      (codes "jql", base_jql extra_filter order_by)
      ∷ (codes "maxResults", codes "50")
      ∷ (codes "fields", codes "summary,status,assignee")
      ∷ [];
  verify_host = false;
  verify_peer = false;
  timeout = config.timeout_seconds *ℤ pos 1000;
}

module _ {J : Type 0} (json : Nlohmann J) where
  -- The operator [] of a const value.
  unfoldable pub member_at : J → Text → Attempt J
  member_at j key =
      if json.is_object j
      then elim (json.field j key) [ none ↦ undefined | some v ↦ returned v ]
      else threw

  -- `fields[outer][inner].get<std::string>()` where both are there.
  abbrev pub text_within : J → Text → Text → Text → Attempt Text
  text_within fields outer inner otherwise = elim (json.field fields outer) [
    | none ↦ returned otherwise
    | some v ↦ elim (json.field v inner) [
      | none ↦ returned otherwise
      | some t ↦ or_threw (json.get_text t)
    ]
  ]

  -- What is read behind `fields`.
  unfoldable pub read_fields : Text → Text → J → Attempt Issue
  read_fields key link fields = do
    summary ← or_threw (value json json.get_text fields (codes "summary") (codes "No Summary"))
    status ← text_within fields (codes "status") (codes "name") []
    assignee ← text_within fields (codes "assignee") (codes "emailAddress") (codes "Unassigned")
    returned
        (record { key = key; link = link; summary = summary; status = status; assignee = assignee })

  unfoldable pub read_issue : J → Attempt Issue
  unfolding member_at read_fields
  read_issue issue_json = do
    key ← or_threw (value json json.get_text issue_json (codes "key") (codes "N/A"))
    link ← or_threw (value json json.get_text issue_json (codes "self") (codes "N/A"))
    fields ← member_at issue_json (codes "fields")
    read_fields key link fields

  unfoldable pub collect_issues : List J → Attempt (List Issue)
  collect_issues [] = returned []
  collect_issues (j ∷ js) =
      let rest = collect_issues js in
      elim (read_issue j) [
        | returned issue ↦ (do issues ← rest; returned (issue ∷ issues))
        | threw ↦ returned []
        | undefined ↦ undefined
      ]

  unfoldable pub parse_search_results : J → Attempt (List Issue)
  unfolding member_at collect_issues
  parse_search_results json_response =
      or_nothing (member_at json_response (codes "issues") >>= λ v. collect_issues (json.items v))

  unfoldable pub parsed_results : Option J → Attempt (List Issue)
  unfolding parse_search_results
  parsed_results none = returned []
  parsed_results (some json_root) = parse_search_results json_root

  unfoldable pub read_response : Response → Attempt (List Issue)
  unfolding parsed_results find_text
  read_response response =
      if not (eq_ℤ response.status_code (pos 200))
      then returned []
      else elim (find_text (codes "You must log in") response.text) [
        | some _ ↦ returned []
        | none ↦ parsed_results (json.parse response.text)
      ]

  unfoldable pub get_active_user_issues :
      (Request → Response) → Config → Text → Text → Attempt (List Issue)
  unfolding read_response issues_request
  get_active_user_issues get config extra_filter order_by =
      read_response (get (issues_request config extra_filter order_by))
