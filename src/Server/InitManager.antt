-- ===== src/Server/InitManager.antt =====
-- envoy/envoy/source/server/init_manager_impl.h and init_manager_impl.cc: the targets that the server waits for
-- before it listens. A target stands for its address. Some targets call back while they are initialized, as
-- `calls_back` says, and the others later. The calls of the server's callback are counted.
pub mod Completion
pub mod Tests
use meliproxy.Shared.{List, Bool, ◌∷◌, ◌++◌, [], ◌==◌, false, ◌+◌, true, length, ℕ, if◌then◌else◌}

-- `InitManagerImpl::State`
pub data State : Type 0 where
  not_initialized initializing initialized : State

-- `InitManagerImpl`
pub record InitManager : Type 0 where
  pub targets : List ℕ
  pub state : State
  pub callbacks : ℕ

-- `std::list::remove`
pub remove_target : ℕ → List ℕ → List ℕ
remove_target t [] = []
remove_target t (u ∷ us) = if u == t then remove_target t us else u ∷ remove_target t us

-- What a target calls when it is initialized.
pub target_ready : ℕ → InitManager → InitManager
unfolding remove_target
target_ready t m =
    let targets = remove_target t m.targets in
    if length targets == 0
    then record m { targets = targets; state = initialized; callbacks = m.callbacks + 1 }
    else record m { targets = targets }

-- `initializeTarget`
pub initialize_target : (ℕ → Bool) → ℕ → InitManager → InitManager
unfolding target_ready
initialize_target calls_back t m = if calls_back t then target_ready t m else m

-- The loop of `initialize`.
pub initialize_targets : (ℕ → Bool) → List ℕ → InitManager → InitManager
unfolding initialize_target
initialize_targets calls_back [] m = m
initialize_targets calls_back (t ∷ ts) m =
    initialize_targets calls_back ts (initialize_target calls_back t m)

-- `initialize`
pub initialize : (ℕ → Bool) → InitManager → InitManager
unfolding initialize_targets
initialize calls_back m =
    if length m.targets == 0
    then record m { callbacks = m.callbacks + 1; state = initialized }
    else initialize_targets calls_back m.targets (record m { state = initializing })

-- `registerTarget`
pub is_initializing : State → Bool
is_initializing not_initialized = false
is_initializing initializing = true
is_initializing initialized = false

pub register_target : (ℕ → Bool) → ℕ → InitManager → InitManager
unfolding initialize_target is_initializing
register_target calls_back t m =
    let m₁ = record m { targets = m.targets ++ (t ∷ []) } in
    if is_initializing m.state then initialize_target calls_back t m₁ else m₁
