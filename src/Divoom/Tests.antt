-- ===== src/Divoom/Tests.antt =====
-- Calls of the client to a server that says that the token has expired, or that it is busy.
use divoom_dev.Prelude.{◌≡◌, refl, false, some, []}
use divoom_dev.Prelude.Int.{pos}
use divoom_dev.Prelude.Text.{codes, text_eq}
use divoom_dev.Divoom.Client.{Response, call, check_status, parse_json, execute}
use divoom_dev.Divoom.Handlers.{devices, handle_list}
use divoom_dev.Divoom.Types.{Reply, answered, breaks}
use divoom_dev.Json.{Nlohmann}
use divoom_dev.Json.Sample.{Doc, num, object, member, end, over}

-- Any body is the document of a busy server.
abbrev busy : Nlohmann Doc
busy = over (λ body. some (object (member (codes "ReturnCode") (num (pos 20)) end)))

abbrev received : Reply Response
received = answered (record { error = false; status_code = 200; text = codes "{}" })

busy_breaks : call (devices busy) [] received ≡ breaks
unfolding call execute devices handle_list parse_json check_status text_eq
busy_breaks = refl
