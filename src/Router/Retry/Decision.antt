-- ===== src/Router/Retry/Decision.antt =====
-- `wouldRetry` against a table of what is retried.
use meliproxy.Common.StringUtil.{Strtoul, atoul, is_empty}
use meliproxy.Router.Retry.Flags.{has_bit}
use meliproxy.Router.Retry.{
  StreamResetReason, remote_refused_stream_reset, connection_failure, overflow, has, retry_on_5xx,
  would_retry, on_5xx, on_refused_stream, on_connect_failure, on_retriable_4xx, on_grpc,
  ResponseHeaders, grpc_retriable, is_overloaded, get_response_status, is5xx, is_some,
  get_grpc_status, retry_on_retriable_4xx,
}
use meliproxy.Shared.{
  Bool, some, arith, ◌≡◌, none, Bytes, false, ◌||◌, ℕ, ◌^◌, ◌==◌, not, refl, ◌&&◌, Option, and_0x70,
  ◌<◌, and_bit, ◌%◌, if◌then◌else◌, leb, ◌/◌, ap, ◌∙◌,
}

-- A bit of the flags, by its number.
abbrev pub is_set : ℕ → ℕ → Bool
is_set k flags = not (flags / 2 ^ k % 2 == 0)

-- The flags under which a reset of the stream is retried.
abbrev pub reset_table : ℕ → StreamResetReason → Bool
reset_table flags overflow = false
reset_table flags remote_refused_stream_reset = is_set 0 flags || is_set 3 flags
reset_table flags connection_failure = is_set 0 flags || is_set 1 flags
reset_table flags reason = is_set 0 flags

-- The flags under which a number of the header grpc-status is retried.
abbrev pub grpc_table : ℕ → Option ℕ → Bool
grpc_table flags none = false
grpc_table flags (some n) =
    (n == 1 && is_set 4 flags) || ((n == 4 && is_set 5 flags) || (n == 8 && is_set 6 flags))

-- The flags under which a response is retried, by its status and the number of its header grpc-status.
abbrev pub response_table : ℕ → Bool → ℕ → Option ℕ → Bool
response_table flags overloaded code grpc =
    not overloaded
    && ((is_set 0 flags && (leb 500 code && leb code 599))
        || ((is_set 2 flags && code == 409) || grpc_table flags grpc))

module _ (strtoul : Bytes → ℕ → Strtoul) where
  would_retry-reset :
      (flags : ℕ) (reason : StreamResetReason)
      → would_retry strtoul flags none (some reason) ≡ some (reset_table flags reason)
  unfolding would_retry on_5xx on_refused_stream on_connect_failure on_retriable_4xx on_grpc
  would_retry-reset flags reason = ground (arith, has_bit 0 flags, has_bit 1 flags, has_bit 3 flags)

  -- The number of the header grpc-status, where there is one.
  pub grpc_number : ResponseHeaders → Option ℕ
  grpc_number h = elim h.grpc_status [
    | none ↦ none
    | some v ↦ if is_empty v then none else atoul strtoul v 10
  ]

  grpc_number_lem :
      (flags : ℕ) (h : ResponseHeaders)
      → grpc_retriable flags (get_grpc_status strtoul h) ≡ grpc_table flags (grpc_number h)
  unfolding get_grpc_status grpc_number
  grpc_number_lem flags h = ground (arith, has_bit 4 flags, has_bit 5 flags, has_bit 6 flags)

  -- The gRPC statuses are looked at under one flag at least.
  grpc_gate :
      (flags : ℕ) (status : Option (Option ℕ))
      → has flags 0x70 ≡ false
      → grpc_retriable flags status ≡ false
  grpc_gate flags none h = refl
  grpc_gate flags (some none) h = refl
  grpc_gate flags (some (some code)) h =
      ground (arith, and_0x70 flags, and_bit 4 flags, and_bit 5 flags, and_bit 6 flags)

  -- What the code comes to, by its own tests.
  abbrev coded : ℕ → ResponseHeaders → ℕ → Bool
  coded flags h code =
      not (is_overloaded (some h))
      && ((has flags retry_on_5xx && is5xx code)
          || ((has flags retry_on_retriable_4xx && code == 409)
              || grpc_retriable flags (get_grpc_status strtoul h)))

  would_retry-coded :
      (flags : ℕ) (h : ResponseHeaders) (code : ℕ)
      → get_response_status strtoul h ≡ some code
      → code < 2 ^ 32
      → would_retry strtoul flags (some h) none ≡ some (coded flags h code)
  unfolding would_retry on_5xx on_refused_stream on_connect_failure on_retriable_4xx on_grpc
  would_retry-coded flags h code e k = ground (arith, grpc_gate flags (get_grpc_status strtoul h))

  is5xx_lem : (code : ℕ) → is5xx code ≡ (leb 500 code && leb code 599)
  is5xx_lem code = ground arith

  abbrev tested : Bool → Bool → Bool → Bool → Bool → Bool → Bool
  tested o a c b d g = not o && ((a && c) || ((b && d) || g))

  would_retry-response :
      (flags : ℕ) (h : ResponseHeaders) (code : ℕ)
      → get_response_status strtoul h ≡ some code
      → code < 2 ^ 32
      → would_retry strtoul flags (some h) none
        ≡ some (response_table flags (is_some h.overloaded) code (grpc_number h))
  would_retry-response flags h code e k =
      would_retry-coded flags h code e k
      ∙ ap
          (λ a. some (
            tested (is_some h.overloaded) a (is5xx code) (has flags 4) (code == 409)
              (grpc_retriable flags (get_grpc_status strtoul h))))
          (has_bit 0 flags)
      ∙ ap
          (λ c. some (
            tested (is_some h.overloaded) (is_set 0 flags) c (has flags 4) (code == 409)
              (grpc_retriable flags (get_grpc_status strtoul h))))
          (is5xx_lem code)
      ∙ ap
          (λ b. some (
            tested (is_some h.overloaded) (is_set 0 flags) (leb 500 code && leb code 599) b
              (code == 409) (grpc_retriable flags (get_grpc_status strtoul h))))
          (has_bit 2 flags)
      ∙ ap
          (λ g. some (
            tested (is_some h.overloaded) (is_set 0 flags) (leb 500 code && leb code 599)
              (is_set 2 flags) (code == 409) g))
          (grpc_number_lem flags h)

  -- After a reset of the stream, whatever the flags, the request is retried as one table says: never after an
  -- overflow, under bit 0 (5xx) after every other reset, and under bit 3 (refused-stream) after a refused stream and
  -- bit 1 (connect-failure) after a connection failure. A response whose :status is a number below 2^32 is retried
  -- as another says: not if it has the overloaded header, and else under bit 0 from 500 to 599, under bit 2
  -- (retriable-4xx) at 409, and where its header grpc-status is not empty and is the number 1, 4 or 8, under bit
  -- 4, 5 or 6 (cancelled, deadline-exceeded, resource-exhausted).
  pub would_retry_lem :
      (flags : ℕ) (reason : StreamResetReason) (h : ResponseHeaders) (code : ℕ)
      → get_response_status strtoul h ≡ some code
      → code < 2 ^ 32
      → (would_retry strtoul flags none (some reason) ≡ some (reset_table flags reason))
        × (would_retry strtoul flags (some h) none
            ≡ some (response_table flags (is_some h.overloaded) code (grpc_number h)))
  would_retry_lem flags reason h code e k =
      (would_retry-reset flags reason, would_retry-response flags h code e k)
