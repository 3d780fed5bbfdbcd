-- ===== src/Router/Retry/Tests.antt =====
-- Runs of RetryStateImpl, and its theorems at concrete inputs.
use meliproxy.Common.StringUtil.{Strtoul, atoul}
use meliproxy.Router.Retry.{
  Retry, World, ResponseHeaders, remote_reset, Answer, should_retry, would_retry, parse_retry_on,
  parse_retry_grpc_on, get_response_status,
}
use meliproxy.Router.Retry.Values.{parse_retry_lem, weight, names}
use meliproxy.Router.Retry.Flags.{contains}
use meliproxy.Router.Retry.Accounting.{History-Kept, Kept, begin, ask, spent}
use meliproxy.Router.Retry.Decision.{would_retry_lem, grpc_number, reset_table, response_table}
use meliproxy.Shared.{false, arith, refl, ℕ, codes, none, ◌≡◌, [], some, Bytes, ◌+◌, ◌*◌}

-- A C library that reads every text as 503 up to its end.
abbrev always_503 : Bytes → ℕ → Strtoul
always_503 text base = record { value = 503; stop = []; erange = false }

abbrev two_left : Retry
two_left = record {
  retry_on = 1;
  retries_remaining = 2;
  current_retry = 0;
  callback = false;
  timer = none;
}

abbrev quiet : World
quiet = record {
  retries = record { current = 4; max = 10; runtime_key = "max_retries" };
  upstream_rq_retry = 0;
  upstream_rq_retry_success = 0;
  upstream_rq_retry_overflow = 0;
  runtime = [];
  generator = record { draws = λ n. n; used = 0 };
}

abbrev unavailable : ResponseHeaders
unavailable = record { overloaded = none; status = some (codes "503"); grpc_status = none }

parse_retry_lem_example :
    (parse_retry_on (codes "5xx,refused-stream,5xx")
      ≡ weight (contains (names (codes "5xx,refused-stream,5xx")) (codes "5xx"))
        + 2 * weight (contains (names (codes "5xx,refused-stream,5xx")) (codes "connect-failure"))
        + 4 * weight (contains (names (codes "5xx,refused-stream,5xx")) (codes "retriable-4xx"))
        + 8 * weight (contains (names (codes "5xx,refused-stream,5xx")) (codes "refused-stream")))
    × (parse_retry_grpc_on (codes "cancelled,5xx")
        ≡ 16 * weight (contains (names (codes "cancelled,5xx")) (codes "cancelled"))
          + 32 * weight (contains (names (codes "cancelled,5xx")) (codes "deadline-exceeded"))
          + 64 * weight (contains (names (codes "cancelled,5xx")) (codes "resource-exhausted")))
parse_retry_lem_example = parse_retry_lem (codes "5xx,refused-stream,5xx") (codes "cancelled,5xx")

status_503 : get_response_status always_503 unavailable ≡ some 503
unfolding get_response_status atoul
status_503 = refl

would_retry_lem_example :
    (would_retry always_503 1 none (some remote_reset) ≡ some (reset_table 1 remote_reset))
    × (would_retry always_503 1 (some unavailable) none
        ≡ some (response_table 1 false 503 (grpc_number always_503 unavailable)))
would_retry_lem_example =
    would_retry_lem always_503 1 remote_reset unavailable 503 status_503 (omega arith)

abbrev first_answer : Answer × Retry × World
first_answer = should_retry always_503 two_left quiet (some unavailable) none

History-Kept_example :
    Kept always_503 two_left (0 + spent first_answer.0) first_answer.1 first_answer.2
History-Kept_example =
    History-Kept always_503 two_left (omega arith)
      (ask (some unavailable) none first_answer (begin quiet 4 (omega arith) refl) refl)
