-- ===== src/Divoom/Requests/Secrets.antt =====
-- Where the client sends the password and the token.
use divoom_dev.Prelude.{◌≡◌, refl, Bool, true, false, ◌||◌, List, [], ◌∷◌, arith}
use divoom_dev.Prelude.Text.{Text, codes, text_eq, starts_with}
use divoom_dev.Divoom.Commands.Members.{Member}
use divoom_dev.Divoom.Requests.{Call, handler_of, sent}
use divoom_dev.Divoom.Types.{Item}

module _ {J : Type 0} where
  -- A member with the key of a password or a token.
  unfoldable pub holds_secret : List (Text × Member J) → Bool
  unfolding text_eq
  holds_secret [] = false
  holds_secret ((key, m) ∷ members) =
      (text_eq key (codes "Password") || text_eq key (codes "Token")) || holds_secret members

module _ {J : Type 0} (compute_md5 : Text → Text) (to_json : List Item → J)
    (dump : List (Text × Member J) → Text) where
  -- No call sends a password or a token but by https.
  sent-https :
      (call : Call J) (host : Text)
      → holds_secret (handler_of compute_md5 to_json call).members ≡ true
      → starts_with (codes "https://") (sent dump (handler_of compute_md5 to_json call) host).url
        ≡ true
  unfolding holds_secret handler_of sent starts_with text_eq
  sent-https (Call.login email password) host h = refl
  sent-https Call.get_devices host h = refl
  sent-https Call.get_font_list host h = refl
  sent-https (Call.get_device_clockes d) host h = refl
  sent-https (Call.get_clock_config d c u) host h = refl
  sent-https (Call.set_clock_config d c u i) host h = refl
  sent-https _ host h = ground arith
