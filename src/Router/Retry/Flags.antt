-- ===== src/Router/Retry/Flags.antt =====
-- The flags that the retry headers set.
use native.Mathlib.Nat.{one-le-pow}
use meliproxy.Common.StringUtil.{split}
use meliproxy.Router.Retry.{
  has, retry_on_of, retry_on_list, parse_retry_on, retry_grpc_on_of, retry_grpc_on_list,
  parse_retry_grpc_on,
}
use meliproxy.Shared.{
  or_bit, ℕ, Bytes, zero, ◌/◌, ◌≡◌, false, and_bit, ◌==◌, ◌^◌, not, ◌<◌, true, ◌%◌, bytes_eq_sound,
  bytes_eq, sym, subst, arith, bit_or, codes, suc, ◌||◌, refl, Bool, ◌&&◌, ◌∙◌, if◌then◌else◌, ap,
  ◌∷◌, List, [], ◌+◌,
}

pub has_bit : (k flags : ℕ) → has flags (2 ^ k) ≡ not (flags / 2 ^ k % 2 == 0)
has_bit k flags = ground (arith, and_bit k flags, one-le-pow k 2)

-- A flag that is or'ed in.
has-or : (k flags m : ℕ) → has (bit_or flags m) (2 ^ k) ≡ has flags (2 ^ k) || has m (2 ^ k)
has-or k flags m =
    rw (has_bit k (bit_or flags m), has_bit k flags, has_bit k m) (ground (arith, or_bit k flags m))

-- A token is equal to one name only.
one_name :
    (token a b : Bytes) → bytes_eq a b ≡ false → bytes_eq token a ≡ true → bytes_eq token b ≡ false
one_name token a b h e = subst (λ t. bytes_eq t b ≡ false) (sym (bytes_eq_sound token a e)) h

-- The values of x-envoy-retry-on, under the numbers of their bits.
abbrev pub retry_on_name : ℕ → Bytes
retry_on_name zero = codes "5xx"
retry_on_name (suc zero) = codes "connect-failure"
retry_on_name (suc (suc zero)) = codes "retriable-4xx"
retry_on_name (suc (suc (suc n))) = codes "refused-stream"

abbrev pub grpc_name : ℕ → Bytes
grpc_name zero = codes "cancelled"
grpc_name (suc zero) = codes "deadline-exceeded"
grpc_name (suc (suc n)) = codes "resource-exhausted"

-- A chain of tests of which at most one holds, each with a bit that it sets.
abbrev chain : Bool → Bool → Bool → Bool → ℕ → ℕ → ℕ → ℕ → ℕ → ℕ
chain a b c d p q r s ret =
    if a
    then bit_or ret p
    else if b
    then bit_or ret q
    else if c
    then bit_or ret r
    else if d
    then bit_or ret s
    else ret

chain-has :
    (a b c d : Bool) (p q r s ret k : ℕ)
    → (a ≡ true → (b ≡ false) × (c ≡ false) × (d ≡ false))
    → (b ≡ true → (c ≡ false) × (d ≡ false))
    → (c ≡ true → d ≡ false)
    → has (chain a b c d p q r s ret) (2 ^ k)
      ≡ ((a && has p (2 ^ k))
          || ((b && has q (2 ^ k)) || ((c && has r (2 ^ k)) || (d && has s (2 ^ k)))))
        || has ret (2 ^ k)
chain-has true b c d p q r s ret k h g f = ground (arith, has-or k ret p, h refl)
chain-has false true c d p q r s ret k h g f = ground (arith, has-or k ret q, g refl)
chain-has false false true d p q r s ret k h g f = ground (arith, has-or k ret r, f refl)
chain-has false false false true p q r s ret k h g f = ground (arith, has-or k ret s)
chain-has false false false false p q r s ret k h g f = refl

abbrev nth : Bool → Bool → Bool → Bool → ℕ → Bool
nth a b c d zero = a
nth a b c d (suc zero) = b
nth a b c d (suc (suc zero)) = c
nth a b c d (suc (suc (suc k))) = d

nth_lem :
    (a b c d x : Bool) (k : ℕ)
    → k < 4
    → ((a && has 1 (2 ^ k))
          || ((b && has 2 (2 ^ k)) || ((c && has 4 (2 ^ k)) || (d && has 8 (2 ^ k)))))
        || x
      ≡ nth a b c d k || x
nth_lem a b c d x zero h = ground arith
nth_lem a b c d x (suc zero) h = ground arith
nth_lem a b c d x (suc (suc zero)) h = ground arith
nth_lem a b c d x (suc (suc (suc zero))) h = ground arith
nth_lem a b c d x (suc (suc (suc (suc k)))) h = absurd (omega arith)

nth_name :
    (token : Bytes) (k : ℕ)
    → nth
        (bytes_eq token (retry_on_name 0))
        (bytes_eq token (retry_on_name 1))
        (bytes_eq token (retry_on_name 2))
        (bytes_eq token (retry_on_name 3))
        k
      ≡ bytes_eq token (retry_on_name k)
nth_name token zero = refl
nth_name token (suc zero) = refl
nth_name token (suc (suc zero)) = refl
nth_name token (suc (suc (suc k))) = refl

retry_on_of-has :
    (token : Bytes) (ret k : ℕ)
    → k < 4
    → has (retry_on_of token ret) (2 ^ k) ≡ bytes_eq token (retry_on_name k) || has ret (2 ^ k)
unfolding retry_on_of
retry_on_of-has token ret k h =
    chain-has (bytes_eq token (retry_on_name 0)) (bytes_eq token (retry_on_name 1))
      (bytes_eq token (retry_on_name 2)) (bytes_eq token (retry_on_name 3)) 1 2 4 8 ret k
      (λ e. (
        one_name token (retry_on_name 0) (retry_on_name 1) refl e,
        one_name token (retry_on_name 0) (retry_on_name 2) refl e,
        one_name token (retry_on_name 0) (retry_on_name 3) refl e,
      ))
      (λ e. (
        one_name token (retry_on_name 1) (retry_on_name 2) refl e,
        one_name token (retry_on_name 1) (retry_on_name 3) refl e,
      ))
      (λ e. one_name token (retry_on_name 2) (retry_on_name 3) refl e)
    ∙ nth_lem (bytes_eq token (retry_on_name 0)) (bytes_eq token (retry_on_name 1))
        (bytes_eq token (retry_on_name 2)) (bytes_eq token (retry_on_name 3)) (has ret (2 ^ k)) k h
    ∙ ap (λ b. b || has ret (2 ^ k)) (nth_name token k)

abbrev pub contains : List Bytes → Bytes → Bool
contains [] name = false
contains (token ∷ tokens) name = bytes_eq token name || contains tokens name

retry_on_list-has :
    (tokens : List Bytes) (ret k : ℕ)
    → k < 4
    → has (retry_on_list ret tokens) (2 ^ k) ≡ contains tokens (retry_on_name k) || has ret (2 ^ k)
unfolding retry_on_list
retry_on_list-has [] ret k h = refl
retry_on_list-has (token ∷ tokens) ret k h =
    retry_on_list-has tokens (retry_on_of token ret) k h
    ∙ rw (retry_on_of-has token ret k h) (
        or_shuffle (contains tokens (retry_on_name k)) (bytes_eq token (retry_on_name k))
          (has ret (2 ^ k)))
  where
    or_shuffle : (a b c : Bool) → a || (b || c) ≡ (b || a) || c
    or_shuffle a b c = ground arith

or_false : (b : Bool) → b || false ≡ b
or_false b = ground arith

-- `parseRetryOn` sets exactly the flags whose names stand in the header: bit 0 for 5xx, 1 for
-- connect-failure, 2 for retriable-4xx and 3 for refused-stream, among the strings that `split` finds
-- between the commas.
pub parse_retry_on-has :
    (config : Bytes) (k : ℕ)
    → k < 4
    → has (parse_retry_on config) (2 ^ k)
      ≡ contains (split config (b',' ∷ []) false) (retry_on_name k)
unfolding parse_retry_on
parse_retry_on-has config k h =
    retry_on_list-has (split config (b',' ∷ []) false) 0 k h
    ∙ rw (none_set k h) (or_false (contains (split config (b',' ∷ []) false) (retry_on_name k)))
  where
    none_set : (k : ℕ) → k < 4 → has 0 (2 ^ k) ≡ false
    none_set zero h = refl
    none_set (suc zero) h = refl
    none_set (suc (suc zero)) h = refl
    none_set (suc (suc (suc zero))) h = refl
    none_set (suc (suc (suc (suc k)))) h = absurd (omega arith)

retry_grpc_on_of-has :
    (token : Bytes) (ret k : ℕ)
    → k < 3
    → has (retry_grpc_on_of token ret) (2 ^ (k + 4))
      ≡ bytes_eq token (grpc_name k) || has ret (2 ^ (k + 4))
unfolding retry_grpc_on_of
retry_grpc_on_of-has token ret k h =
    chain-has (bytes_eq token (grpc_name 0)) (bytes_eq token (grpc_name 1))
      (bytes_eq token (grpc_name 2)) false 0x10 0x20 0x40 0 ret (k + 4)
      (λ e. (
        one_name token (grpc_name 0) (grpc_name 1) refl e,
        one_name token (grpc_name 0) (grpc_name 2) refl e,
        refl,
      ))
      (λ e. (one_name token (grpc_name 1) (grpc_name 2) refl e, refl)) (λ e. refl)
    ∙ pick (bytes_eq token (grpc_name 0)) (bytes_eq token (grpc_name 1))
        (bytes_eq token (grpc_name 2)) (has ret (2 ^ (k + 4))) k h
    ∙ ap (λ b. b || has ret (2 ^ (k + 4))) (name k h)
  where
    pick :
        (a b c x : Bool) (k : ℕ)
        → k < 3
        → ((a && has 0x10 (2 ^ (k + 4)))
              || ((b && has 0x20 (2 ^ (k + 4))) || ((c && has 0x40 (2 ^ (k + 4))) || false)))
            || x
          ≡ nth a b c false k || x
    pick a b c x zero h = ground arith
    pick a b c x (suc zero) h = ground arith
    pick a b c x (suc (suc zero)) h = ground arith
    pick a b c x (suc (suc (suc k))) h = absurd (omega arith)

    name :
        (k : ℕ)
        → k < 3
        → nth
            (bytes_eq token (grpc_name 0))
            (bytes_eq token (grpc_name 1))
            (bytes_eq token (grpc_name 2))
            false
            k
          ≡ bytes_eq token (grpc_name k)
    name zero h = refl
    name (suc zero) h = refl
    name (suc (suc zero)) h = refl
    name (suc (suc (suc k))) h = absurd (omega arith)

or_shuffle : (a b c : Bool) → a || (b || c) ≡ (b || a) || c
or_shuffle a b c = ground arith

retry_grpc_on_list-has :
    (tokens : List Bytes) (ret k : ℕ)
    → k < 3
    → has (retry_grpc_on_list ret tokens) (2 ^ (k + 4))
      ≡ contains tokens (grpc_name k) || has ret (2 ^ (k + 4))
unfolding retry_grpc_on_list
retry_grpc_on_list-has [] ret k h = refl
retry_grpc_on_list-has (token ∷ tokens) ret k h =
    retry_grpc_on_list-has tokens (retry_grpc_on_of token ret) k h
    ∙ rw (retry_grpc_on_of-has token ret k h) (
        or_shuffle (contains tokens (grpc_name k)) (bytes_eq token (grpc_name k))
          (has ret (2 ^ (k + 4))))

-- `parseRetryGrpcOn` sets exactly the flags whose names stand in the header: bit 4 for cancelled, 5 for
-- deadline-exceeded and 6 for resource-exhausted, among the strings that `split` finds between the
-- commas.
pub parse_retry_grpc_on-has :
    (header : Bytes) (k : ℕ)
    → k < 3
    → has (parse_retry_grpc_on header) (2 ^ (k + 4))
      ≡ contains (split header (b',' ∷ []) false) (grpc_name k)
unfolding parse_retry_grpc_on
parse_retry_grpc_on-has header k h =
    retry_grpc_on_list-has (split header (b',' ∷ []) false) 0 k h
    ∙ rw (none_set k h) (or_false (contains (split header (b',' ∷ []) false) (grpc_name k)))
  where
    none_set : (k : ℕ) → k < 3 → has 0 (2 ^ (k + 4)) ≡ false
    none_set zero h = refl
    none_set (suc zero) h = refl
    none_set (suc (suc zero)) h = refl
    none_set (suc (suc (suc k))) h = absurd (omega arith)
