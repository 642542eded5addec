-- ===== src/Jenkins/Builds.antt =====
-- The client of plugins/jenkins/src/client.cpp and the build_info of plugins/jenkins/include: the
-- request for the builds of a job, and what is read from the response. The HTTP library is the
-- parameter `get`.
pub mod Owner
use divoom_dev.Prelude.{
  ℕ, ◌≡◌, ◌⊎◌, Bool, true, false, not, ◌&&◌, ◌||◌, Option, none, some, List, [], ◌∷◌, ◌++◌, map,
  if◌then◌else◌, ltb,
}
use divoom_dev.Prelude.Decimal.{decimal}
use divoom_dev.Prelude.Int.{ℤ, pos, negsuc, ◌*ℤ◌, ltb_ℤ}
use divoom_dev.Prelude.Text.{Text, codes, is_empty, find_text}
use divoom_dev.Json.{Nlohmann, ◌>>=◌, contains, value, equals_text, items_at, items_of_member}
use divoom_dev.Jenkins.Base64.{encode_base64}

pub record BuildInfo : Type 0 where
  pub number : ℤ
  pub status : Text
  pub result : Text
  pub building : Bool
  pub timestamp : ℕ

pub record Config : Type 0 where
  pub base_url : Text
  pub username : Text
  pub api_token : Text
  pub timeout_seconds : ℤ

-- What cpr::Get is given, and what it returns.
pub record Request : Type 0 where
  pub url : Text
  pub header : List (Text × Text)
  pub parameters : List (Text × Text)
  pub timeout : ℤ

pub record Response : Type 0 where
  pub text : Text
  pub error : Bool

unfoldable pub prepare_auth_headers : Text → Text → List (Text × Text)
unfolding encode_base64
prepare_auth_headers username token =
    (codes "Accept", codes "application/json")
    ∷ (codes "Authorization", codes "Basic " ++ encode_base64 (username ++ codes ":" ++ token))
    ∷ []

abbrev max_parameter : ℤ → List (Text × Text)
max_parameter (pos n) = if ltb 0 n && ltb n 1000 then (codes "max", decimal n) ∷ [] else []
max_parameter (negsuc n) = []

unfoldable pub builds_request : Config → Text → ℤ → Request
unfolding prepare_auth_headers
builds_request config job_name count = record {
  url = config.base_url ++ codes "/job/" ++ job_name ++ codes "/api/json";
  header = prepare_auth_headers config.username config.api_token;
  parameters =
      (
        codes "tree",
        codes "builds[number,timestamp,result,building,actions[causes[userId,username]]]",
      )
      ∷ (codes "depth", codes "1")
      ∷ max_parameter count;
  timeout = config.timeout_seconds *ℤ pos 1000;
}

abbrev has_text : Text → Text → Bool
has_text p s = elim (find_text p s) [ none ↦ false | some _ ↦ true ]

unfoldable pub is_html : Text → Bool
unfolding find_text
is_html s = has_text (codes "<!DOCTYPE") s || has_text (codes "<html") s

module _ {J : Type 0} (json : Nlohmann J) where
  -- An element of the queue.
  abbrev pub is_queued : J → Bool
  is_queued j = elim (json.field j (codes "why")) [ none ↦ false | some v ↦ json.is_string v ]

  abbrev read_status : J → Option Text
  read_status j = elim (json.field j (codes "result")) [
    | none ↦ some (codes "IN_PROGRESS")
    | some v ↦ if json.is_null v then some (codes "IN_PROGRESS") else json.get_text v
  ]

  unfoldable pub read_info : J → Option BuildInfo
  read_info j = do
    number ← value json json.get_int j (codes "number") (pos 0)
    building ← value json json.get_bool j (codes "building") false
    status ← read_status j
    timestamp ← value json json.get_u64 j (codes "timestamp") 0
    some (record {
      number = number;
      status = status;
      result = status;
      building = building;
      timestamp = timestamp;
    })

  abbrev equals_member : Text → J → Text → Bool
  equals_member user_id j key = elim (json.field j key) [
    | none ↦ false
    | some v ↦ equals_text json v user_id
  ]

  -- The login of whoever started the build, under its key or that of old versions.
  abbrev pub is_cause_of : Text → J → Bool
  is_cause_of user_id cause =
      equals_member user_id cause (codes "userId") || equals_member user_id cause (codes "username")

  module _ (user_id : Text) where
    unfoldable pub causes_match : List J → Bool
    causes_match [] = false
    causes_match (cause ∷ causes) = if is_cause_of user_id cause then true else causes_match causes

    unfoldable pub actions_match : List J → Bool
    unfolding causes_match
    actions_match [] = false
    actions_match (action ∷ actions) =
        let rest = actions_match actions in
        if contains json action (codes "causes")
        then if causes_match (items_of_member json action (codes "causes")) then true else rest
        else rest

    unfoldable pub user_matches : J → Bool
    unfolding actions_match
    user_matches build =
        if not (is_empty user_id)
        then if contains json build (codes "actions")
          then actions_match (items_of_member json build (codes "actions"))
          else false
        else true

    -- An element that throws ends the loop; the builds before it are returned.
    unfoldable pub collect_builds : List J → List BuildInfo
    collect_builds [] = []
    collect_builds (build ∷ builds) =
        let rest = collect_builds builds in
        if is_queued build then rest else elim (read_info build) [
          | none ↦ []
          | some info ↦ if user_matches build then info ∷ rest else rest
        ]

  unfoldable pub parse_builds_json : Text → Text → List BuildInfo
  unfolding collect_builds
  parse_builds_json json_string user_id = elim (json.parse json_string) [
    | none ↦ []
    | some j ↦ elim (items_at json j (codes "builds")) [
      | none ↦ []
      | some builds ↦ collect_builds user_id builds
    ]
  ]

  -- The check of the body ends the call: the member "error" is a text, or "status" is 401.
  abbrev pub refused : J → Bool
  refused j =
      let unauthorized : Bool = elim (json.field j (codes "status")) [
        | none ↦ false
        | some v ↦ json.equals_int v (pos 401)
      ] in
      if unauthorized then true else elim (json.field j (codes "error")) [
        | none ↦ false
        | some v ↦ elim (json.get_text v) [ none ↦ false | some _ ↦ true ]
      ]

  abbrev pub is_refused : Text → Bool
  is_refused text = elim (json.parse text) [ none ↦ false | some j ↦ refused j ]

  unfoldable pub read_response : Response → Text → List BuildInfo
  unfolding is_html parse_builds_json
  read_response response user_id =
      if is_html response.text
      then []
      else if response.error
      then []
      else if is_refused response.text
      then []
      else parse_builds_json response.text user_id

  unfoldable pub get_user_builds : (Request → Response) → Config → Text → Text → ℤ → List BuildInfo
  unfolding read_response builds_request
  get_user_builds get config job_name user_id count =
      read_response (get (builds_request config job_name count)) user_id
