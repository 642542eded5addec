-- ===== src/Divoom/Client.antt =====
-- `handler::parse_json` of divoom/src/handler.hpp, and `client::execute` and its callers of
-- divoom/src/client.cpp, over the `handle` of any handler. The HTTP library's response is an
-- argument; that library may throw.
pub mod Answers
use divoom_dev.Prelude.{ℕ, Bool, true, false, not, Option, none, some, if◌then◌else◌, ◌==◌}
use divoom_dev.Prelude.Int.{ℤ, pos, eq_ℤ}
use divoom_dev.Prelude.Text.{Text, codes}
use divoom_dev.Divoom.Types.{
  token_expired, wrong_user, wrong_password, other, Reply, answered, failed, Handled, returned,
  thrown, crashed, Called, gives, breaks,
}
use divoom_dev.Json.{Nlohmann, ◌>>=◌}

-- The switch over the status: whether the document is passed on.
unfoldable pub check_status : ℤ → Reply Bool
check_status code =
    if eq_ℤ code (pos 0)
    then answered true
    else if eq_ℤ code (pos 4)
    then failed wrong_user
    else if eq_ℤ code (pos 5)
    then failed wrong_password
    else if eq_ℤ code (pos 11)
    then failed token_expired
    else if eq_ℤ code (pos 23)
    then failed token_expired
    else answered false

-- The fields of cpr::Response that the client reads.
pub record Response : Type 0 where
  pub error : Bool
  pub status_code : ℕ
  pub text : Text

module _ {J : Type 0} (json : Nlohmann J) where
  -- `j->at("ReturnCode").get<int>()`
  abbrev pub return_code : J → Option ℤ
  return_code j = do code ← json.field j (codes "ReturnCode"); json.get_int code

  abbrev passed_on : J → Reply Bool → Reply (Option J)
  passed_on j (answered ok) = answered (if ok then some j else none)
  passed_on j (failed e) = failed e

  abbrev checked : J → Option ℤ → Reply (Option J)
  checked j none = failed other
  checked j (some code) = passed_on j (check_status code)

  abbrev parsed : Option J → Reply (Option J)
  parsed none = answered none
  parsed (some j) = checked j (return_code j)

  -- The document, or a null pointer, or an exception.
  unfoldable pub parse_json : Text → Reply (Option J)
  unfolding check_status
  parse_json body = parsed (json.parse body)

module _ {A : Type 0} (handle : Text → Handled A) where
  abbrev pub received : Reply Response → Handled A
  received (failed e) = thrown e
  received (answered r) =
      if r.error
      then returned none
      else if not (r.status_code == 200)
      then returned none
      else handle r.text

  -- Everything that is thrown is caught; a null pointer that is followed ends the program.
  abbrev pub caught : Handled A → Called (Option A)
  caught (returned a) = gives a
  caught (thrown e) = gives none
  caught crashed = breaks

  -- The result of the handler, where execute returns true.
  unfoldable pub execute : Reply Response → Called (Option A)
  execute r = caught (received r)

  abbrev pub or_default : A → Called (Option A) → Called A
  or_default default (gives none) = gives default
  or_default default (gives (some a)) = gives a
  or_default default breaks = breaks

  -- `login`, `get_devices` and the like: without a result, the default one.
  unfoldable pub call : A → Reply Response → Called A
  unfolding execute
  call default r = or_default default (execute r)
