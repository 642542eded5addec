-- ===== src/Jenkins/Tests.antt =====
-- A response with a queued element, builds of two users, and one that cannot be read; and base64.
use divoom_dev.Prelude.{◌≡◌, refl, false, some, List, [], ◌∷◌, arith, filter, length}
use divoom_dev.Prelude.Int.{pos}
use divoom_dev.Prelude.Text.{Text, codes, text_eq, find_text}
use divoom_dev.Json.{Nlohmann}
use divoom_dev.Json.Sample.{Doc, null, num, text, array, object, nil, cons, member, end, over}
use divoom_dev.Jenkins.Base64.{
  encode_base64, encode_loop, letter, encode_rest, char_at, base64_chars,
}
use divoom_dev.Jenkins.Base64.Decoding.{decode, decode-encode_base64, length-encode_base64}
use divoom_dev.Jenkins.Builds.{
  user_matches, Config, Request, Response, get_user_builds, read_info, is_html,
}
use divoom_dev.Jenkins.Builds.Owner.{choose, is_wanted, before_thrown, get_user_builds-chosen}

abbrev user_pass : Text
user_pass = codes "user:pass"

encode_user_pass : encode_base64 user_pass ≡ codes "dXNlcjpwYXNz"
unfolding encode_base64 encode_loop letter encode_rest char_at base64_chars
encode_user_pass = refl

decode-encode_base64_example :
    decode (encode_base64 (255 ∷ 0 ∷ 17 ∷ 128 ∷ [])) ≡ some (255 ∷ 0 ∷ 17 ∷ 128 ∷ [])
decode-encode_base64_example = decode-encode_base64 (255 ∷ 0 ∷ 17 ∷ 128 ∷ []) (ground arith)

length-encode_base64_example : length (encode_base64 user_pass) ≡ 12
length-encode_base64_example = length-encode_base64 user_pass

abbrev cause : Text → Doc
cause user = object (
    member (codes "actions")
      (array (
        cons (object end) (
          cons
            (object (
              member (codes "causes")
                (array
                  (cons (object end) (cons (object (member (codes "userId") (text user) end)) nil)))
                end))
            nil)))
      (member (codes "number") (num (pos 7)) end))

abbrev queued : Doc
queued = object (member (codes "why") (text (codes "waiting")) end)

abbrev builds : List Doc
builds = queued ∷ cause (codes "ann") ∷ cause (codes "bob") ∷ null ∷ cause (codes "bob") ∷ []

abbrev builds_doc : Doc
builds_doc = object (
    member (codes "builds")
      (array (
        cons queued (
          cons (cause (codes "ann"))
            (cons (cause (codes "bob")) (cons null (cons (cause (codes "bob")) nil))))))
      end)

abbrev sample : Nlohmann Doc
sample = over (λ body. some builds_doc)

abbrev config : Config
config = record {
  base_url = codes "http://ci";
  username = codes "bob";
  api_token = codes "t";
  timeout_seconds = pos 30;
}

abbrev get : Request → Response
get request = record { text = codes "{}"; error = false }

get_user_builds-chosen_example :
    get_user_builds sample get config (codes "git") (codes "bob") (pos 100)
    ≡ choose
        (read_info sample)
        (filter (is_wanted sample (codes "bob")) (before_thrown sample builds))
unfolding is_html find_text text_eq
get_user_builds-chosen_example =
    get_user_builds-chosen sample get config (codes "git") (codes "bob") (pos 100) builds_doc builds
      refl refl refl refl refl refl

one_build :
    get_user_builds sample get config (codes "git") (codes "bob") (pos 100)
    ≡ record {
      number = pos 7;
      status = codes "IN_PROGRESS";
      result = codes "IN_PROGRESS";
      building = false;
      timestamp = 0;
    }
      ∷ []
unfolding get_user_builds text_eq read_info user_matches
one_build = refl
