-- ===== src/Server/InitManager/Tests.antt =====
-- Three targets, of which one calls back at once.
use meliproxy.Server.InitManager.{
  InitManager, initialize, initialize_targets, initialize_target, target_ready, remove_target,
  not_initialized,
}
use meliproxy.Server.InitManager.Completion.{initialize-completes, call_back}
use meliproxy.Shared.{if◌then◌else◌, [], ◌∷◌, ◌≡◌, refl, length, Bool, ◌==◌, ℕ}

abbrev three_targets : InitManager
three_targets = record { targets = 1 ∷ 2 ∷ 3 ∷ []; state = not_initialized; callbacks = 0 }

abbrev second : ℕ → Bool
second t = t == 2

initialize-completes_example :
    (call_back (3 ∷ 1 ∷ []) (initialize second three_targets)).callbacks
    ≡ (if 2 == length (initialize second three_targets).targets then 1 else 0)
unfolding initialize initialize_targets initialize_target target_ready remove_target
initialize-completes_example =
    initialize-completes second three_targets (3 ∷ 1 ∷ []) (refl, (refl, (refl, tt)))
      (refl, (refl, tt))
