-- ===== src/Ics/HttpSource.antt =====
-- plugins/ics/src/http_source.cpp: download with retries. The http library (cpr) is the parameter
-- `ask`, the response to the n-th request; the logs are left out.
pub mod Retry
mod Tests
use Prim.Native.String.{String}
use divoom_dev.Prelude.{
  ℕ, zero, suc, ◌*◌, ◌-◌, ◌+◌, ◌^◌, Bool, true, false, ◌&&◌, not, Option, none, some, List, [], ◌∷◌,
  ◌++◌, if◌then◌else◌, ltb, leb, ◌==◌, any,
}
use divoom_dev.Prelude.Int.{ℤ, pos, negsuc}
use divoom_dev.Prelude.Text.{Text, codes, find_text}

-- Times are in seconds and in milliseconds, as the fields of the source say.
pub record HttpOptions : Type 0 where
  pub timeout : ℕ
  pub retries : ℤ
  pub retry_delay : ℕ
  pub ssl_verify : Bool

abbrev pub default_options : HttpOptions
default_options = record { timeout = 15; retries = pos 3; retry_delay = 500; ssl_verify = false }

-- The parameters of cpr::Get.
pub record Request : Type 0 where
  pub url : Text
  pub timeout_ms : ℕ
  pub verify_host : Bool
  pub verify_peer : Bool

-- The fields of cpr::Response that the code reads.
pub record Response : Type 0 where
  pub status_code : ℕ
  pub text : Text
  pub error_message : Text

abbrev pub transient_patterns : List Text
transient_patterns =
    codes "SSL"
    ∷ codes "ssl"
    ∷ codes "TLS"
    ∷ codes "tls"
    ∷ codes "timeout"
    ∷ codes "Timeout"
    ∷ codes "timed out"
    ∷ codes "connection refused"
    ∷ codes "Connection refused"
    ∷ codes "connection reset"
    ∷ codes "Connection reset"
    ∷ codes "bad record mac"
    ∷ codes "decryption failed"
    ∷ codes "certificate"
    ∷ codes "Certificate"
    ∷ codes "502"
    ∷ codes "503"
    ∷ codes "504"
    ∷ []

abbrev pub occurs_in : Text → Text → Bool
occurs_in msg pat = elim (find_text pat msg) [ none ↦ false | some _ ↦ true ]

unfoldable pub is_transient_error : Text → Bool
is_transient_error msg = any (occurs_in msg) transient_patterns

-- What a round of the loop does with a response: return its text, return nothing, or go on.
pub data Reply : Type 0 where
  downloaded : Text → Reply
  refused : Reply
  retried : Reply

unfoldable pub judge : Response → Reply
judge r =
    if r.status_code == 200
    then downloaded r.text
    else if leb 400 r.status_code && ltb r.status_code 500 && not (r.status_code == 429)
    then refused
    else if is_transient_error r.error_message
    then retried
    else refused

-- What fetch returns, the number of its requests, and its sleeps in milliseconds.
pub record Fetched : Type 0 where
  pub body : Text
  pub requests : ℕ
  pub waits : List ℤ

-- The rounds of `for (attempt = 0; attempt <= retries; ++attempt)`.
abbrev pub attempts : ℤ → ℕ
attempts (pos n) = suc n
attempts (negsuc n) = 0

abbrev pub request_of : HttpOptions → Text → Request
request_of opts url = record {
  url = url;
  timeout_ms = opts.timeout * 1000;
  verify_host = opts.ssl_verify;
  verify_peer = opts.ssl_verify;
}

-- `overflow n` is what the machine makes of the delay when the int `1 << n` overflows.
module _ (overflow : ℕ → ℤ) (ask : ℕ → Request → Response) (opts : HttpOptions) (url : Text) where
  -- retry_delay * (1 << (attempt - 1))
  unfoldable pub backoff : ℕ → ℤ
  backoff attempt =
      if ltb (attempt - 1) 31
      then pos (opts.retry_delay * 2 ^ (attempt - 1))
      else overflow (attempt - 1)

  -- The sleep at the start of a round.
  unfoldable pub wait_before : ℕ → List ℤ
  unfolding backoff
  wait_before attempt = if ltb 0 attempt then backoff attempt ∷ [] else []

  abbrev pub round : ℕ → Reply → Fetched → Fetched
  round attempt (downloaded text) rest = record {
    body = text;
    requests = 1;
    waits = wait_before attempt;
  }
  round attempt refused rest = record { body = []; requests = 1; waits = wait_before attempt }
  round attempt retried rest = record {
    body = rest.body;
    requests = suc rest.requests;
    waits = wait_before attempt ++ rest.waits;
  }

  -- The rounds from `attempt` on; `left` of them are left.
  unfoldable pub fetch_from : ℕ → ℕ → Fetched
  fetch_from attempt zero = record { body = []; requests = 0; waits = [] }
  fetch_from attempt (suc left) =
      let rest = fetch_from (suc attempt) left in
      round attempt (judge (ask attempt (request_of opts url))) rest

  unfoldable pub fetch : Fetched
  unfolding fetch_from
  fetch = fetch_from 0 (attempts opts.retries)
