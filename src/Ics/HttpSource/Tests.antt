-- ===== src/Ics/HttpSource/Tests.antt =====
-- Downloads from a server that times out once.
use divoom_dev.Prelude.{ℕ, zero, suc, ◌≡◌, ◌<◌, refl, [], arith}
use divoom_dev.Prelude.Int.{ℤ, pos}
use divoom_dev.Prelude.Text.{Text, codes, find_text}
use divoom_dev.Ics.HttpSource.{
  Request, Response, default_options, fetch, retried, judge, is_transient_error,
}
use divoom_dev.Ics.HttpSource.Retry.{IsHonest, reply, fetch-IsHonest, fetch-without_message}

abbrev no_overflow : ℕ → ℤ
no_overflow n = pos 0

abbrev url : Text
url = codes "u"

abbrev timed_out : Response
timed_out = record { status_code = 0; text = []; error_message = codes "timed out" }

abbrev flaky : ℕ → Request → Response
flaky zero r = timed_out
flaky (suc n) r = record { status_code = 200; text = codes "cal"; error_message = [] }

abbrev busy : ℕ → Request → Response
busy n r = record { status_code = 503; text = []; error_message = [] }

first_retried : (i : ℕ) → i < 1 → reply no_overflow flaky default_options url i ≡ retried
unfolding judge is_transient_error find_text
first_retried zero h = refl
first_retried (suc i) h = absurd (omega arith)

fetch-IsHonest_example :
    IsHonest no_overflow flaky default_options url 0 4 (fetch no_overflow flaky default_options url)
fetch-IsHonest_example = fetch-IsHonest no_overflow flaky default_options url

-- A server that says 503 is asked once.
fetch-without_message_example :
    fetch no_overflow busy default_options url ≡ record { body = []; requests = 1; waits = [] }
fetch-without_message_example =
    fetch-without_message no_overflow busy default_options url 3 refl (omega arith) refl
