-- ===== src/Server/DrainManager.antt =====
-- envoy/envoy/source/server/drain_manager_impl.cc: connections close with a chance that grows by the second. The
-- timer fires only while it is enabled. A drain time of 0 is a division by zero in the source, and the theorems
-- have a positive one.
pub mod Tests
use native.Mathlib.Nat.{mod-lt}
use meliproxy.Shared.{
  ◌≡◌, zero, ℕ, ◌^◌, ◌+◌, if◌then◌else◌, false, ltb, true, ◌<◌, ◌%◌, suc, Bool, not, arith, leb,
  ◌||◌,
}

-- `drain_tick_timer_` is the flag `draining` and whether the timer is enabled; `completions` counts the calls of
-- `drain_sequence_completion_`.
pub record DrainManager : Type 0 where
  pub draining : Bool
  pub is_enabled : Bool
  pub drain_time_completed : ℕ
  pub has_completion : Bool
  pub completions : ℕ

abbrev pub fresh : DrainManager
fresh = record {
  draining = false;
  is_enabled = false;
  drain_time_completed = 0;
  has_completion = false;
  completions = 0;
}

pub drain_close : (drain_time : ℕ) (health_check_failed : Bool) (random : ℕ) → DrainManager → Bool
drain_close drain_time health_check_failed random m =
    if health_check_failed
    then true
    else if not m.draining
    then false
    else ltb (random % drain_time) m.drain_time_completed

pub drain_sequence_tick : (drain_time : ℕ) → DrainManager → DrainManager
drain_sequence_tick drain_time m =
    let m₁ = record m { drain_time_completed = (m.drain_time_completed + 1) % 2 ^ 32 } in
    if ltb m₁.drain_time_completed drain_time
    then record m₁ { is_enabled = true }
    else if m₁.has_completion
    then record m₁ { completions = m₁.completions + 1 }
    else m₁

pub start_drain_sequence : (drain_time : ℕ) (has_completion : Bool) → DrainManager → DrainManager
unfolding drain_sequence_tick
start_drain_sequence drain_time has_completion m =
    drain_sequence_tick drain_time
      (record m { has_completion = has_completion; draining = true; is_enabled = false })

-- A second passes: a timer that is enabled fires, and is enabled no more.
pub second : (drain_time : ℕ) → DrainManager → DrainManager
unfolding drain_sequence_tick
second drain_time m =
    if m.is_enabled then drain_sequence_tick drain_time (record m { is_enabled = false }) else m

pub seconds : (drain_time : ℕ) → ℕ → DrainManager → DrainManager
unfolding second
seconds drain_time zero m = m
seconds drain_time (suc n) m = second drain_time (seconds drain_time n m)

-- Where a drain sequence stands after `n` seconds.
record IsAt (drain_time n : ℕ) (m : DrainManager) : Type 0 where
  pub draining : m.draining ≡ true
  pub has_completion : m.has_completion ≡ true
  pub completed : m.drain_time_completed ≡ (if ltb (n + 1) drain_time then n + 1 else drain_time)
  pub enabled : m.is_enabled ≡ ltb (n + 1) drain_time
  pub completions : m.completions ≡ (if ltb (n + 1) drain_time then 0 else 1)

start-IsAt :
    (drain_time : ℕ)
    → 0 < drain_time
    → drain_time < 2 ^ 32
    → IsAt drain_time 0 (start_drain_sequence drain_time true fresh)
unfolding start_drain_sequence drain_sequence_tick
start-IsAt drain_time p b = record {
  draining = ground arith;
  has_completion = ground arith;
  completed = ground arith;
  enabled = ground arith;
  completions = ground arith;
}

second-IsAt :
    (drain_time n : ℕ) (m : DrainManager)
    → 0 < drain_time
    → drain_time < 2 ^ 32
    → IsAt drain_time n m
    → IsAt drain_time (suc n) (second drain_time m)
unfolding second drain_sequence_tick
second-IsAt drain_time n m p b a = record {
  draining = ground arith;
  has_completion = ground arith;
  completed = ground arith;
  enabled = ground arith;
  completions = ground arith;
}

seconds-IsAt :
    (drain_time n : ℕ)
    → 0 < drain_time
    → drain_time < 2 ^ 32
    → IsAt drain_time n (seconds drain_time n (start_drain_sequence drain_time true fresh))
unfolding seconds
seconds-IsAt drain_time zero p b = start-IsAt drain_time p b
seconds-IsAt drain_time (suc n) p b =
    second-IsAt drain_time n (seconds drain_time n (start_drain_sequence drain_time true fresh)) p b
      (seconds-IsAt drain_time n p b)

-- With a positive drain time in 32 bits, `n` seconds after the start of the drain sequence of a fresh manager: the
-- completion has been called once if the drain time is over, the first tick counted, and otherwise not at all, and
-- just till then the timer is enabled; and a connection is closed if the health check has failed, if the drain
-- time is over, or if the random number, modulo the drain time, is one of the first `n + 1` numbers.
pub seconds-Drains :
    (drain_time n random : ℕ) (failed : Bool)
    → 0 < drain_time
    → drain_time < 2 ^ 32
    → ((seconds drain_time n (start_drain_sequence drain_time true fresh)).completions
        ≡ (if leb drain_time (n + 1) then 1 else 0))
      × ((seconds drain_time n (start_drain_sequence drain_time true fresh)).is_enabled
          ≡ ltb (n + 1) drain_time)
      × (drain_close drain_time failed random
            (seconds drain_time n (start_drain_sequence drain_time true fresh))
          ≡ (failed || (leb drain_time (n + 1) || ltb (random % drain_time) (n + 1))))
unfolding drain_close
seconds-Drains drain_time n random failed p b =
    let m : DrainManager = seconds drain_time n (start_drain_sequence drain_time true fresh) in
    let a : IsAt drain_time n m = seconds-IsAt drain_time n p b in
    (
      ground (arith, a.completions),
      a.enabled,
      ground (arith, a.draining, a.completed, mod-lt random p),
    )
