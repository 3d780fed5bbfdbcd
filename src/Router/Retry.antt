-- ===== src/Router/Retry.antt =====
-- envoy/envoy/source/common/router/retry_state_impl.h and retry_state_impl.cc: RetryStateImpl.
pub mod Flags
pub mod Values
pub mod Accounting
pub mod Decision
pub mod Tests
use meliproxy.Upstream.Resource
use meliproxy.Runtime.{Snapshot, Random, get_integer, feature_enabled, random}
use meliproxy.Upstream.Resource.{Resource}
use meliproxy.Common.StringUtil.{Strtoul, atoul, split, is_empty}
use meliproxy.Shared.{
  false, ◌==◌, Bytes, ◌∷◌, not, List, ◌&&◌, ◌%◌, ℕ, some, bit_or, bit_and, Bool, [], none,
  if◌then◌else◌, ◌||◌, codes, ltb, Option, ◌^◌, max, leb, bytes_eq, inc32, ◌*◌, dec32, ◌+◌, inc64,
  true, ◌-◌,
}

-- RetryPolicy::RETRY_ON_*.
abbrev pub retry_on_5xx : ℕ
retry_on_5xx = 0x1

abbrev pub retry_on_connect_failure : ℕ
retry_on_connect_failure = 0x2

abbrev pub retry_on_retriable_4xx : ℕ
retry_on_retriable_4xx = 0x4

abbrev pub retry_on_refused_stream : ℕ
retry_on_refused_stream = 0x8

abbrev pub retry_on_grpc_cancelled : ℕ
retry_on_grpc_cancelled = 0x10

abbrev pub retry_on_grpc_deadline_exceeded : ℕ
retry_on_grpc_deadline_exceeded = 0x20

abbrev pub retry_on_grpc_resource_exhausted : ℕ
retry_on_grpc_resource_exhausted = 0x40

pub data StreamResetReason : Type 0 where
  local_reset local_refused_stream_reset remote_reset remote_refused_stream_reset connection_failure
        connection_termination overflow :
      StreamResetReason

pub data RetryStatus : Type 0 where
  no_retry no_overflow retry : RetryStatus

-- The headers that the code reads; `none` is a missing header. `overloaded` is x-envoy-overloaded.
pub record ResponseHeaders : Type 0 where
  pub overloaded : Option Bytes
  pub status : Option Bytes
  pub grpc_status : Option Bytes

pub record RequestHeaders : Type 0 where
  pub envoy_retry_on : Option Bytes
  pub envoy_retry_grpc_on : Option Bytes
  pub envoy_max_retries : Option Bytes

pub record RoutePolicy : Type 0 where
  pub retry_on : ℕ
  pub num_retries : ℕ

-- The cluster's retry resource and statistics, the runtime and the generator.
pub record World : Type 0 where
  pub retries : Resource
  pub upstream_rq_retry : ℕ
  pub upstream_rq_retry_success : ℕ
  pub upstream_rq_retry_overflow : ℕ
  pub runtime : Snapshot
  pub generator : Random

-- `callback` says whether `callback_` is set; `timer` is the time for which the backoff timer was
-- last enabled, `none` before it is created.
pub record Retry : Type 0 where
  pub retry_on : ℕ
  pub retries_remaining : ℕ
  pub current_retry : ℕ
  pub callback : Bool
  pub timer : Option ℕ

abbrev pub is_some {ℓ} : {A : Type ℓ} → Option A → Bool
is_some none = false
is_some (some a) = true

abbrev pub has : ℕ → ℕ → Bool
has flags flag = not (bit_and flags flag == 0)

-- One round of the loop of `parseRetryOn`.
pub retry_on_of : Bytes → ℕ → ℕ
retry_on_of token ret =
    if bytes_eq token (codes "5xx")
    then bit_or ret retry_on_5xx
    else if bytes_eq token (codes "connect-failure")
    then bit_or ret retry_on_connect_failure
    else if bytes_eq token (codes "retriable-4xx")
    then bit_or ret retry_on_retriable_4xx
    else if bytes_eq token (codes "refused-stream")
    then bit_or ret retry_on_refused_stream
    else ret

pub retry_on_list : ℕ → List Bytes → ℕ
retry_on_list ret [] = ret
retry_on_list ret (token ∷ tokens) = retry_on_list (retry_on_of token ret) tokens

pub parse_retry_on : Bytes → ℕ
unfolding retry_on_list retry_on_of
parse_retry_on config = retry_on_list 0 (split config (b',' ∷ []) false)

-- One round of the loop of `parseRetryGrpcOn`.
pub retry_grpc_on_of : Bytes → ℕ → ℕ
retry_grpc_on_of token ret =
    if bytes_eq token (codes "cancelled")
    then bit_or ret retry_on_grpc_cancelled
    else if bytes_eq token (codes "deadline-exceeded")
    then bit_or ret retry_on_grpc_deadline_exceeded
    else if bytes_eq token (codes "resource-exhausted")
    then bit_or ret retry_on_grpc_resource_exhausted
    else ret

pub retry_grpc_on_list : ℕ → List Bytes → ℕ
retry_grpc_on_list ret [] = ret
retry_grpc_on_list ret (token ∷ tokens) = retry_grpc_on_list (retry_grpc_on_of token ret) tokens

pub parse_retry_grpc_on : Bytes → ℕ
unfolding retry_grpc_on_list retry_grpc_on_of
parse_retry_grpc_on header = retry_grpc_on_list 0 (split header (b',' ∷ []) false)

-- What `shouldRetry` answers; `thrown` is the exception of `getResponseStatus`, and `fault` the
-- division by zero in `enableBackoffTimer`.
pub data Answer : Type 0 where
  answered : RetryStatus → Answer
  thrown fault : Answer

-- `CodeUtility::is5xx`.
abbrev pub is5xx : ℕ → Bool
is5xx code = leb 500 code && ltb code 600

-- Grpc::Status: `none` is no header, `some none` is InvalidCode.
abbrev pub GrpcStatus : Type 0
GrpcStatus = Option (Option ℕ)

-- `resetRetry`, which the destructor calls too.
pub reset_retry : Retry → World → Retry × World
reset_retry s w =
    if s.callback
    then (record s { callback = false }, record w { retries = Resource.dec w.retries })
    else (s, w)

-- `(1 << current_retry_) - 1` in 32 bits; the shift is undefined from 31 on.
abbrev pub multiplier : ℕ → ℕ
multiplier k = (2 ^ k + 2 ^ 32 - 1) % 2 ^ 32

-- `enableBackoffTimer`; the remainder by 0 is a fault.
pub enable_backoff_timer : Retry → World → Answer × Retry × World
enable_backoff_timer s w =
    let k = inc32 s.current_retry in
    let base = get_integer w.runtime "upstream.base_retry_backoff_ms" 25 in
    let bound = base * multiplier k % 2 ^ 64 in
    let (draw, g) = random w.generator in
    if bound == 0 then (fault, record s { current_retry = k }, record w { generator = g }) else (
      answered retry,
      record s { current_retry = k; timer = some (draw % bound) },
      record w { generator = g },
    )

-- The tests of `wouldRetry` in turn; `none` is the exception.
abbrev or_else : Option Bool → Option Bool → Option Bool
or_else none rest = none
or_else (some true) rest = some true
or_else (some false) rest = rest

-- 1 is Canceled, 4 DeadlineExceeded and 8 ResourceExhausted.
abbrev pub grpc_retriable : ℕ → GrpcStatus → Bool
grpc_retriable flags none = false
grpc_retriable flags (some none) = false
grpc_retriable flags (some (some code)) =
    (code == 1 && has flags retry_on_grpc_cancelled)
    || ((code == 4 && has flags retry_on_grpc_deadline_exceeded)
        || (code == 8 && has flags retry_on_grpc_resource_exhausted))

abbrev pub is_overloaded : Option ResponseHeaders → Bool
is_overloaded none = false
is_overloaded (some h) = is_some h.overloaded

abbrev pub is_overflow : Option StreamResetReason → Bool
is_overflow (some overflow) = true
is_overflow reason = false

-- `strtoul` is the C library's, which reads a number off the front of a string.
module _ (strtoul : Bytes → ℕ → Strtoul) where
  -- `Utility::getResponseStatus`; `none` is the exception.
  pub get_response_status : ResponseHeaders → Option ℕ
  get_response_status h = elim h.status [ none ↦ none | some v ↦ atoul strtoul v 10 ]

  -- `Common::getGrpcStatus`; the last code is Unauthenticated, 16.
  pub get_grpc_status : ResponseHeaders → GrpcStatus
  get_grpc_status h = elim h.grpc_status [
    | none ↦ none
    | some v ↦ if is_empty v then none else elim (atoul strtoul v 10) [
      | none ↦ some none
      | some code ↦ if ltb 16 code then some none else some (some code)
    ]
  ]

  -- The constructor, and what `create` does: no state where nothing asks for retries.
  pub configure : RoutePolicy → RequestHeaders → Retry
  configure policy h =
      let on_header : ℕ = elim h.envoy_retry_on [ none ↦ 0 | some v ↦ parse_retry_on v ] in
      let on : ℕ = elim h.envoy_retry_grpc_on [
        | none ↦ on_header
        | some v ↦ bit_or on_header (parse_retry_grpc_on v)
      ] in
      let limit : ℕ = elim h.envoy_max_retries [
        | none ↦ 1
        | some v ↦
            if on == 0 then 1 else elim (atoul strtoul v 10) [ none ↦ 1 | some n ↦ n % 2 ^ 32 ]
      ] in
      record {
        retry_on = bit_or on policy.retry_on;
        retries_remaining = max limit policy.num_retries;
        current_retry = 0;
        callback = false;
        timer = none;
      }

  pub create : RoutePolicy → RequestHeaders → Option Retry × RequestHeaders
  unfolding configure
  create policy h = (
    if is_some h.envoy_retry_on || (is_some h.envoy_retry_grpc_on || not (policy.retry_on == 0))
        then some (configure policy h)
        else none,
    record { envoy_retry_on = none; envoy_retry_grpc_on = none; envoy_max_retries = none },
  )

  pub on_5xx : ℕ → Option ResponseHeaders → Option Bool
  on_5xx flags headers =
      if has flags retry_on_5xx
      then elim headers [
        | none ↦ some true
        | some h ↦ elim (get_response_status h) [ none ↦ none | some code ↦ some (is5xx code) ]
      ]
      else some false

  pub on_refused_stream : ℕ → Option StreamResetReason → Option Bool
  on_refused_stream flags (some remote_refused_stream_reset) =
      some (has flags retry_on_refused_stream)
  on_refused_stream flags reason = some false

  pub on_connect_failure : ℕ → Option StreamResetReason → Option Bool
  on_connect_failure flags (some connection_failure) = some (has flags retry_on_connect_failure)
  on_connect_failure flags reason = some false

  -- The status is cast to an enumeration of 32 bits; 409 is Conflict.
  pub on_retriable_4xx : ℕ → Option ResponseHeaders → Option Bool
  on_retriable_4xx flags none = some false
  on_retriable_4xx flags (some h) =
      if has flags retry_on_retriable_4xx
      then elim (get_response_status h) [ none ↦ none | some code ↦ some (code % 2 ^ 32 == 409) ]
      else some false

  pub on_grpc : ℕ → Option ResponseHeaders → Option Bool
  on_grpc flags none = some false
  on_grpc flags (some h) =
      if has flags (
        bit_or (bit_or retry_on_grpc_cancelled retry_on_grpc_deadline_exceeded)
          retry_on_grpc_resource_exhausted)
      then some (grpc_retriable flags (get_grpc_status h))
      else some false

  pub would_retry : ℕ → Option ResponseHeaders → Option StreamResetReason → Option Bool
  would_retry flags headers reason =
      if is_overloaded headers
      then some false
      else if is_overflow reason
      then some false
      else or_else (on_5xx flags headers) (
          or_else (on_refused_stream flags reason) (
            or_else (on_connect_failure flags reason)
              (or_else (on_retriable_4xx flags headers) (on_grpc flags headers))))

  -- The rest of `shouldRetry`, once the earlier retry is off and one of the remaining ones is taken.
  retry_or_not : Retry → World → Option Bool → Answer × Retry × World
  unfolding enable_backoff_timer
  retry_or_not s w none = (thrown, s, w)
  retry_or_not s w (some false) = (answered no_retry, s, w)
  retry_or_not s w (some true) =
      let (enabled, g) = feature_enabled w.runtime w.generator "upstream.use_retry" 100 in
      if not (Resource.can_create w.runtime w.retries)
      then (
        answered no_overflow,
        s,
        record w { upstream_rq_retry_overflow = inc64 w.upstream_rq_retry_overflow },
      )
      else if not enabled
      then (answered no_retry, s, record w { generator = g })
      else enable_backoff_timer (record s { callback = true })
          (record w {
            generator = g;
            retries = Resource.inc w.retries;
            upstream_rq_retry = inc64 w.upstream_rq_retry;
          })

  -- What is left after the first statement of `shouldRetry`.
  retry_again :
      Retry → World → Option ResponseHeaders → Option StreamResetReason → Answer × Retry × World
  unfolding retry_or_not reset_retry
  retry_again s w headers reason =
      let (s', w') = reset_retry s w in
      if s'.retries_remaining == 0
      then (answered no_retry, s', w')
      else retry_or_not (record s' { retries_remaining = dec32 s'.retries_remaining }) w'
          (would_retry s'.retry_on headers reason)

  -- `shouldRetry`. A retry that is on and would not be made again has succeeded.
  pub should_retry :
      Retry → World → Option ResponseHeaders → Option StreamResetReason → Answer × Retry × World
  unfolding retry_again
  should_retry s w headers reason =
      if s.callback
      then elim (would_retry s.retry_on headers reason) [
        | none ↦ (thrown, s, w)
        | some true ↦ retry_again s w headers reason
        | some false ↦
            retry_again s
              (record w { upstream_rq_retry_success = inc64 w.upstream_rq_retry_success }) headers
              reason
      ]
      else retry_again s w headers reason
