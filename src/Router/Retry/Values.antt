-- ===== src/Router/Retry/Values.antt =====
-- The numbers that the retry headers come to.
use meliproxy.Router.Retry.{
  retry_on_of, retry_on_list, parse_retry_on, retry_grpc_on_of, retry_grpc_on_list,
  parse_retry_grpc_on, has,
}
use meliproxy.Router.Retry.Flags.{
  has_bit, parse_retry_on-has, parse_retry_grpc_on-has, retry_on_name, grpc_name, contains,
}
use meliproxy.Common.StringUtil.{split}
use meliproxy.Shared.{
  true, ◌+◌, ◌%◌, bytes_eq, all_below, Bytes, ◌<◌, sym, ◌∙◌, if_cases, ℕ, ◌∷◌, bit_or, refl, codes,
  false, ◌/◌, ◌≡◌, List, table, Bool, ◌*◌, not, [], table_lem, arith, ◌^◌, ◌==◌,
}

abbrev pub weight : Bool → ℕ
weight false = 0
weight true = 1

digit-weight : (x : ℕ) (b : Bool) → x < 2 → not (x == 0) ≡ b → x ≡ weight b
digit-weight x true h e = ground arith
digit-weight x false h e = ground arith

has-digit : (k flags : ℕ) (b : Bool) → has flags (2 ^ k) ≡ b → flags / 2 ^ k % 2 ≡ weight b
has-digit k flags b e = digit-weight (flags / 2 ^ k % 2) b (omega arith) (sym (has_bit k flags) ∙ e)

-- Flags below 16 stay there.
or-below :
    (m : ℕ)
    → table 16 (λ i. bit_or i m / 16) (λ i. 0) ≡ true
    → (ret : ℕ) → ret < 16
    → bit_or ret m < 16
or-below m t ret h =
    let e : bit_or ret m / 16 ≡ 0 = table_lem 16 (λ i. bit_or i m / 16) (λ i. 0) t ret h in
    omega (arith, e)

retry_on_of-below : (token : Bytes) (ret : ℕ) → ret < 16 → retry_on_of token ret < 16
unfolding retry_on_of table all_below
retry_on_of-below token ret h =
    if_cases (λ n. n < 16) (bytes_eq token (codes "5xx")) _ _ (λ e. or-below 1 refl ret h)
      (λ e.
        if_cases (λ n. n < 16) (bytes_eq token (codes "connect-failure")) _ _
          (λ e. or-below 2 refl ret h)
          (λ e.
            if_cases (λ n. n < 16) (bytes_eq token (codes "retriable-4xx")) _ _
              (λ e. or-below 4 refl ret h)
              (λ e.
                if_cases (λ n. n < 16) (bytes_eq token (codes "refused-stream")) _ _
                  (λ e. or-below 8 refl ret h) (λ e. h))))

retry_on_list-below : (tokens : List Bytes) (ret : ℕ) → ret < 16 → retry_on_list ret tokens < 16
unfolding retry_on_list
retry_on_list-below [] ret h = h
retry_on_list-below (token ∷ tokens) ret h =
    retry_on_list-below tokens (retry_on_of token ret) (retry_on_of-below token ret h)

-- The flags of gRPC alone.
abbrev IsGrpc : ℕ → Type 0
IsGrpc n = (n < 128) × (n % 16 ≡ 0)

or-IsGrpc :
    (m : ℕ)
    → table 128 (λ i. bit_or i m / 128) (λ i. 0) ≡ true
    → table 128 (λ i. bit_or i m % 16) (λ i. i % 16) ≡ true
    → (ret : ℕ) → IsGrpc ret
    → IsGrpc (bit_or ret m)
or-IsGrpc m t u ret (h, g) =
    let e : bit_or ret m / 128 ≡ 0 = table_lem 128 (λ i. bit_or i m / 128) (λ i. 0) t ret h in
    let f : bit_or ret m % 16 ≡ ret % 16 =
      table_lem 128 (λ i. bit_or i m % 16) (λ i. i % 16) u ret h in
    (omega (arith, e), f ∙ g)

retry_grpc_on_of-IsGrpc :
    (token : Bytes) (ret : ℕ) → IsGrpc ret → IsGrpc (retry_grpc_on_of token ret)
unfolding retry_grpc_on_of table all_below
retry_grpc_on_of-IsGrpc token ret h =
    if_cases IsGrpc (bytes_eq token (codes "cancelled")) _ _ (λ e. or-IsGrpc 0x10 refl refl ret h)
      (λ e.
        if_cases IsGrpc (bytes_eq token (codes "deadline-exceeded")) _ _
          (λ e. or-IsGrpc 0x20 refl refl ret h)
          (λ e.
            if_cases IsGrpc (bytes_eq token (codes "resource-exhausted")) _ _
              (λ e. or-IsGrpc 0x40 refl refl ret h) (λ e. h)))

retry_grpc_on_list-IsGrpc :
    (tokens : List Bytes) (ret : ℕ) → IsGrpc ret → IsGrpc (retry_grpc_on_list ret tokens)
unfolding retry_grpc_on_list
retry_grpc_on_list-IsGrpc [] ret h = h
retry_grpc_on_list-IsGrpc (token ∷ tokens) ret h =
    retry_grpc_on_list-IsGrpc tokens (retry_grpc_on_of token ret)
      (retry_grpc_on_of-IsGrpc token ret h)

-- The names that stand between the commas of a header.
abbrev pub names : Bytes → List Bytes
names header = split header (b',' ∷ []) false

-- `parseRetryOn` is the sum of 1 if 5xx is one of the names that `split` finds between the commas, of 2 if
-- connect-failure is, of 4 if retriable-4xx is, and of 8 if refused-stream is; and `parseRetryGrpcOn` is the sum of
-- 16 for cancelled, 32 for deadline-exceeded and 64 for resource-exhausted: other names and repeated ones do not count.
pub parse_retry_lem :
    (config header : Bytes)
    → (parse_retry_on config
        ≡ weight (contains (names config) (codes "5xx"))
          + 2 * weight (contains (names config) (codes "connect-failure"))
          + 4 * weight (contains (names config) (codes "retriable-4xx"))
          + 8 * weight (contains (names config) (codes "refused-stream")))
      × (parse_retry_grpc_on header
          ≡ 16 * weight (contains (names header) (codes "cancelled"))
            + 32 * weight (contains (names header) (codes "deadline-exceeded"))
            + 64 * weight (contains (names header) (codes "resource-exhausted")))
unfolding parse_retry_on parse_retry_grpc_on
parse_retry_lem config header = (on_lem, grpc_lem)
  where
    on : ℕ
    on = parse_retry_on config

    grpc : ℕ
    grpc = parse_retry_grpc_on header

    digit : (k : ℕ) → k < 4 → on / 2 ^ k % 2 ≡ weight (contains (names config) (retry_on_name k))
    digit k h = has-digit k on _ (parse_retry_on-has config k h)

    grpc_digit :
        (k : ℕ) → k < 3 → grpc / 2 ^ (k + 4) % 2 ≡ weight (contains (names header) (grpc_name k))
    grpc_digit k h = has-digit (k + 4) grpc _ (parse_retry_grpc_on-has header k h)

    small : on < 16
    small = retry_on_list-below (names config) 0 (omega arith)

    only_grpc : IsGrpc grpc
    only_grpc = retry_grpc_on_list-IsGrpc (names header) 0 (omega arith, refl)

    on_lem :
        on
        ≡ weight (contains (names config) (codes "5xx"))
          + 2 * weight (contains (names config) (codes "connect-failure"))
          + 4 * weight (contains (names config) (codes "retriable-4xx"))
          + 8 * weight (contains (names config) (codes "refused-stream"))
    on_lem = omega (
      arith,
      small,
      digit 0 (omega arith),
      digit 1 (omega arith),
      digit 2 (omega arith),
      digit 3 (omega arith),
    )

    grpc_lem :
        grpc
        ≡ 16 * weight (contains (names header) (codes "cancelled"))
          + 32 * weight (contains (names header) (codes "deadline-exceeded"))
          + 64 * weight (contains (names header) (codes "resource-exhausted"))
    grpc_lem = omega (
      arith,
      only_grpc.0,
      only_grpc.1,
      grpc_digit 0 (omega arith),
      grpc_digit 1 (omega arith),
      grpc_digit 2 (omega arith),
    )
