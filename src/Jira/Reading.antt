-- ===== src/Jira/Reading.antt =====
-- What is read of a response of Jira.
use divoom_dev.Prelude.{
  ◌≡◌, refl, ap, ◌∙◌, ◌⊎◌, Bool, true, false, arith, Option, none, some, List, [], ◌∷◌, All,
}
use divoom_dev.Prelude.Int.{pos, eq_ℤ}
use divoom_dev.Prelude.Text.{Text, codes, find_text}
use divoom_dev.Json.{Nlohmann, value}
use divoom_dev.Jira.{
  Issue, Config, Request, Response, issues_request, read_response, parsed_results,
  get_active_user_issues, Attempt, returned, threw, undefined, member_at, read_issue,
  collect_issues, parse_search_results, or_nothing, or_threw, text_within, read_fields, ◌>>=◌,
}

abbrev is_defined {ℓ} : {A : Type ℓ} → Attempt A → Bool
is_defined undefined = false
is_defined _ = true

bind-is_defined {ℓ κ} :
    {A : Type ℓ} {B : Type κ} (a : Attempt A) (f : A → Attempt B)
    → is_defined a ≡ true
    → ((x : A) → is_defined (f x) ≡ true)
    → is_defined (a >>= f) ≡ true
bind-is_defined (returned x) f h g = g x
bind-is_defined threw f h g = refl
bind-is_defined undefined f h g = h

or_threw-is_defined {ℓ} : {A : Type ℓ} (o : Option A) → is_defined (or_threw o) ≡ true
or_threw-is_defined none = refl
or_threw-is_defined (some a) = refl

module _ {J : Type 0} (json : Nlohmann J) where
  -- The issues before the first element that throws.
  unfoldable pub before_thrown : List J → List Issue
  before_thrown [] = []
  before_thrown (j ∷ js) =
      let rest = before_thrown js in
      elim (read_issue json j) [ returned issue ↦ issue ∷ rest | threw ↦ [] | undefined ↦ [] ]

  -- It has the member "fields", or is no object.
  abbrev pub HasFields : J → Type 0
  HasFields j = (json.is_object j ≡ false) ⊎ ((v : J) × (json.field j (codes "fields") ≡ some v))

  member_at-is_defined :
      (j : J) → HasFields j → is_defined (member_at json j (codes "fields")) ≡ true
  unfolding member_at
  member_at-is_defined j h = ground arith

  text_within-is_defined :
      (j : J) (outer inner otherwise : Text)
      → is_defined (text_within json j outer inner otherwise) ≡ true
  text_within-is_defined j outer inner otherwise = ground arith

  read_fields-is_defined :
      (key link : Text) (fields : J) → is_defined (read_fields json key link fields) ≡ true
  unfolding read_fields
  read_fields-is_defined key link fields = ground arith

  read_issue-is_defined : (j : J) → HasFields j → is_defined (read_issue json j) ≡ true
  unfolding read_issue
  read_issue-is_defined j h =
      bind-is_defined (or_threw (value json json.get_text j (codes "key") (codes "N/A")))
        (λ key. or_threw (value json json.get_text j (codes "self") (codes "N/A")) >>= λ link.
          member_at json j (codes "fields") >>= read_fields json key link)
        (or_threw-is_defined (value json json.get_text j (codes "key") (codes "N/A")))
        λ key.
          bind-is_defined (or_threw (value json json.get_text j (codes "self") (codes "N/A")))
            (λ link. member_at json j (codes "fields") >>= read_fields json key link)
            (or_threw-is_defined (value json json.get_text j (codes "self") (codes "N/A")))
            λ link.
              bind-is_defined (member_at json j (codes "fields")) (read_fields json key link)
                (member_at-is_defined j h) λ fields. read_fields-is_defined key link fields

  collect_issues-before_thrown :
      (js : List J) → All HasFields js → collect_issues json js ≡ returned (before_thrown js)
  unfolding collect_issues before_thrown
  collect_issues-before_thrown [] h = refl
  collect_issues-before_thrown (j ∷ js) h =
      ground (arith, read_issue-is_defined j h.0, collect_issues-before_thrown js h.1)

  -- The elements of "issues", and what they give.
  abbrev pub elements : Option J → List J
  elements none = []
  elements (some v) = json.items v

  abbrev pub issues_of : Option J → Attempt (List Issue)
  issues_of none = undefined
  issues_of (some v) = returned (before_thrown (json.items v))

  parse_search_results-issues_of :
      (document : J) (found : Option J)
      → json.is_object document ≡ true
      → json.field document (codes "issues") ≡ found
      → All HasFields (elements found)
      → parse_search_results json document ≡ issues_of found
  unfolding parse_search_results member_at
  parse_search_results-issues_of document none o e h = rw (o, e) refl
  parse_search_results-issues_of document (some v) o e h =
      rw (o, e) (ap or_nothing (collect_issues-before_thrown (json.items v) h))

  -- A response of status 200 without the login page, whose document is an object in which every
  -- element of "issues" has the member "fields" or is no object: where "issues" is not there, the
  -- call gets into what C++ leaves undefined; where it is, the call returns the issues before the
  -- first element that throws.
  pub get_active_user_issues-issues_of :
      (get : Request → Response) (config : Config) (extra_filter order_by : Text) (document : J)
      → eq_ℤ (get (issues_request config extra_filter order_by)).status_code (pos 200) ≡ true
      → find_text (codes "You must log in") (get (issues_request config extra_filter order_by)).text
        ≡ none
      → json.parse (get (issues_request config extra_filter order_by)).text ≡ some document
      → json.is_object document ≡ true
      → All HasFields (elements (json.field document (codes "issues")))
      → get_active_user_issues json get config extra_filter order_by
        ≡ issues_of (json.field document (codes "issues"))
  unfolding get_active_user_issues read_response
  get_active_user_issues-issues_of get config extra_filter order_by document status page parsed o
        h =
      rw (status, page)
        (ap (λ d. parsed_results json d) parsed
          ∙ parse_search_results-issues_of document (json.field document (codes "issues")) o refl h)
