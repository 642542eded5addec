-- ===== src/Jenkins/Builds/Owner.antt =====
-- Whose builds are returned: the loops over actions and causes, against all causes of a build at
-- once.
use divoom_dev.Prelude.{
  ◌≡◌, refl, ap, ◌∙◌, Bool, false, not, ◌&&◌, ◌||◌, Option, none, some, List, [], ◌∷◌, ◌++◌, map,
  if◌then◌else◌, arith, any, filter, concat,
}
use divoom_dev.Prelude.Int.{ℤ}
use divoom_dev.Prelude.Text.{Text, codes, is_empty}
use divoom_dev.Json.{Nlohmann, items_at, items_of_member}
use divoom_dev.Jenkins.Builds.{
  Config, Request, Response, builds_request, is_html, refused, is_refused, read_response,
  get_user_builds, is_queued, read_info, is_cause_of, causes_match, actions_match, user_matches,
  collect_builds, parse_builds_json,
}

unfoldable pub choose {ℓ κ} : {A : Type ℓ} {B : Type κ} → (A → Option B) → List A → List B
choose f [] = []
choose f (x ∷ xs) = elim (f x) [ none ↦ choose f xs | some y ↦ y ∷ choose f xs ]

any-++ {ℓ} :
    {A : Type ℓ} (p : A → Bool) (xs ys : List A) → any p (xs ++ ys) ≡ (any p xs || any p ys)
any-++ p [] ys = refl
any-++ p (x ∷ xs) ys = ground (arith, any-++ p xs ys)

module _ {J : Type 0} (json : Nlohmann J) where
  -- The causes of all actions.
  abbrev pub causes_of : J → List J
  causes_of build = concat (
      map (λ action. items_of_member json action (codes "causes"))
        (items_of_member json build (codes "actions")))

  -- It is no element of the queue, and somebody of that login started it.
  abbrev pub is_wanted : Text → J → Bool
  is_wanted user_id build =
      not (is_queued json build) && any (is_cause_of json user_id) (causes_of build)

  -- The builds before the first that cannot be read.
  unfoldable pub before_thrown : List J → List J
  before_thrown [] = []
  before_thrown (b ∷ bs) =
      let rest = before_thrown bs in
      if is_queued json b
      then b ∷ rest
      else elim (read_info json b) [ none ↦ [] | some _ ↦ b ∷ rest ]

  module _ (user_id : Text) where
    causes_match-any :
        (causes : List J) → causes_match json user_id causes ≡ any (is_cause_of json user_id) causes
    unfolding causes_match
    causes_match-any [] = refl
    causes_match-any (c ∷ causes) = ground (arith, causes_match-any causes)

    actions_match-any :
        (actions : List J)
        → actions_match json user_id actions
          ≡ any
              (is_cause_of json user_id)
              (concat (map (λ action. items_of_member json action (codes "causes")) actions))
    unfolding actions_match
    actions_match-any [] = refl
    actions_match-any (a ∷ actions) =
        let key = codes "causes" in
        let causes = items_of_member json a key in
        let split =
          any-++ (is_cause_of json user_id) causes
            (concat (map (λ action. items_of_member json action key) actions)) in
        ground (arith, split, causes_match-any causes, actions_match-any actions)

    user_matches-any :
        (build : J)
        → is_empty user_id ≡ false
        → user_matches json user_id build ≡ any (is_cause_of json user_id) (causes_of build)
    unfolding user_matches
    user_matches-any build e =
        ground (arith, actions_match-any (items_of_member json build (codes "actions")))

    collect_builds-chosen :
        (builds : List J)
        → is_empty user_id ≡ false
        → collect_builds json user_id builds
          ≡ choose (read_info json) (filter (is_wanted user_id) (before_thrown builds))
    unfolding collect_builds before_thrown choose
    collect_builds-chosen [] e = refl
    collect_builds-chosen (b ∷ builds) e =
        ground (arith, user_matches-any b e, collect_builds-chosen builds e)

  -- A response that is not HTML, no transport error, and a document that does not refuse the call
  -- and whose "builds" can be visited: for a login that is not empty, what is returned are the
  -- builds, in order, up to the first that cannot be read, that are no elements of the queue and
  -- have a cause of that login among the causes of all their actions.
  pub get_user_builds-chosen :
      (get : Request → Response) (config : Config) (job_name user_id : Text) (count : ℤ) (j : J)
      (builds : List J)
      → is_html (get (builds_request config job_name count)).text ≡ false
      → (get (builds_request config job_name count)).error ≡ false
      → json.parse (get (builds_request config job_name count)).text ≡ some j
      → refused json j ≡ false
      → items_at json j (codes "builds") ≡ some builds
      → is_empty user_id ≡ false
      → get_user_builds json get config job_name user_id count
        ≡ choose (read_info json) (filter (is_wanted user_id) (before_thrown builds))
  unfolding get_user_builds read_response parse_builds_json
  get_user_builds-chosen get config job_name user_id count j builds html error parsed admitted
        listed e =
      let response = get (builds_request config job_name count) in
      let not_refused : is_refused json response.text ≡ false =
        ap (λ o. elim o [ none ↦ false | some i ↦ refused json i ]) parsed ∙ admitted in
      let visited =
        ap
          (λ o. elim o [
            | none ↦ []
            | some i ↦ elim (items_at json i (codes "builds")) [
              | none ↦ []
              | some bs ↦ collect_builds json user_id bs
            ]
          ])
          parsed
        ∙ ap (λ o. elim o [ none ↦ [] | some bs ↦ collect_builds json user_id bs ]) listed in
      rw (html, error, not_refused) (visited ∙ collect_builds-chosen user_id builds e)
