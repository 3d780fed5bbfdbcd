-- ===== src/Server/InitManager/Completion.antt =====
-- The server's callback is called once, when the last target is ready.
use meliproxy.Server.InitManager.{
  InitManager, remove_target, target_ready, initialize_target, initialize_targets, initialize,
  initializing, initialized,
}
use meliproxy.Shared.{
  List, ◌⊎◌, true, suc, arith, refl, ◌∷◌, ◌||◌, ◌≤◌, [], ◌==◌, ◌≡◌, if_cases, length, false, ◌∙◌,
  Bool, ℕ, sym, inr, ap, inl, Bool-cases, ==_iff, subst, ◌+◌, if◌then◌else◌,
}

abbrev pub waits : ℕ → List ℕ → Bool
waits t [] = false
waits t (u ∷ us) = u == t || waits t us

abbrev pub IsDistinct : List ℕ → Type 0
IsDistinct [] = Unit
IsDistinct (t ∷ ts) = (waits t ts ≡ false) × IsDistinct ts

-- After so many calls: either all targets are ready and the server was called once more, or some are
-- not and it was not.
abbrev pub IsSettled : ℕ → InitManager → Type 0
IsSettled n m =
    ((length m.targets ≡ 0) × (m.state ≡ initialized) × (m.callbacks ≡ suc n))
    ⊎ ((1 ≤ length m.targets) × (m.state ≡ initializing) × (m.callbacks ≡ n))

waits-length : (t : ℕ) (ts : List ℕ) → waits t ts ≡ true → 1 ≤ length ts
waits-length t [] e = absurd (cc e)
waits-length t (u ∷ us) e = omega arith

waits-remove_target :
    (t u : ℕ) (ts : List ℕ) → (t == u) ≡ false → waits t (remove_target u ts) ≡ waits t ts
unfolding remove_target
waits-remove_target t u [] n = refl
waits-remove_target t u (v ∷ ts) n = ground (arith, waits-remove_target t u ts n)

targets-target_ready :
    (t : ℕ) (m : InitManager) → (target_ready t m).targets ≡ remove_target t m.targets
unfolding target_ready
targets-target_ready t m = ground arith

target_ready-IsSettled :
    (n t : ℕ) (m : InitManager)
    → waits t m.targets ≡ true
    → IsSettled n m
    → IsSettled n (target_ready t m)
unfolding target_ready
target_ready-IsSettled n t m w s = ground (arith, waits-length t m.targets w)

abbrev pub AllWait : List ℕ → List ℕ → Type 0
AllWait [] us = Unit
AllWait (t ∷ ts) us = (waits t us ≡ true) × AllWait ts us

AllWait-remove_target :
    (t : ℕ) (ts us : List ℕ) → waits t ts ≡ false → AllWait ts us → AllWait ts (remove_target t us)
AllWait-remove_target t [] us n a = tt
AllWait-remove_target t (u ∷ ts) us n (w, a) =
    (waits-remove_target u t us (ground arith) ∙ w, AllWait-remove_target t ts us (ground arith) a)

initialize_targets-IsSettled :
    (calls_back : ℕ → Bool) (n : ℕ) (ts : List ℕ) (m : InitManager)
    → IsDistinct ts
    → AllWait ts m.targets
    → IsSettled n m
    → IsSettled n (initialize_targets calls_back ts m)
unfolding initialize_targets initialize_target
initialize_targets-IsSettled b n [] m d a s = s
initialize_targets-IsSettled b n (t ∷ ts) m (f, d) (w, a) s =
    if_cases (λ x. IsSettled n (initialize_targets b ts x)) (b t) _ _
      (λ e.
        initialize_targets-IsSettled b n ts (target_ready t m) d
          (subst (AllWait ts) (sym (targets-target_ready t m))
            (AllWait-remove_target t ts m.targets f a))
          (target_ready-IsSettled n t m w s))
      (λ e. initialize_targets-IsSettled b n ts m d a s)

AllWait-front : (t : ℕ) (ts us : List ℕ) → AllWait ts us → AllWait ts (t ∷ us)
AllWait-front t [] us a = tt
AllWait-front t (u ∷ ts) us (w, a) = (ground arith, AllWait-front t ts us a)

AllWait-self : (ts : List ℕ) → AllWait ts ts
AllWait-self [] = tt
AllWait-self (t ∷ ts) = (ground arith, AllWait-front t ts ts (AllWait-self ts))

initialize-IsSettled :
    (calls_back : ℕ → Bool) (m : InitManager)
    → IsDistinct m.targets
    → IsSettled m.callbacks (initialize calls_back m)
unfolding initialize
initialize-IsSettled b m d =
    if_cases (IsSettled m.callbacks) (length m.targets == 0) _ _
      (λ e. inl (ground arith, refl, omega arith))
      (λ e.
        initialize_targets-IsSettled b m.callbacks m.targets (record m { state = initializing }) d
          (AllWait-self m.targets) (inr (ground arith, refl, refl)))

-- Targets that call back one after the other, each while the server waits for it.
abbrev pub call_back : List ℕ → InitManager → InitManager
call_back [] m = m
call_back (t ∷ ts) m = call_back ts (target_ready t m)

abbrev pub AreWaiting : List ℕ → InitManager → Type 0
AreWaiting [] m = Unit
AreWaiting (t ∷ ts) m = (waits t m.targets ≡ true) × AreWaiting ts (target_ready t m)

call_back-IsSettled :
    (n : ℕ) (ts : List ℕ) (m : InitManager)
    → AreWaiting ts m
    → IsSettled n m
    → IsSettled n (call_back ts m)
call_back-IsSettled n [] m a s = s
call_back-IsSettled n (t ∷ ts) m (w, a) s =
    call_back-IsSettled n ts (target_ready t m) a (target_ready-IsSettled n t m w s)

remove_target-absent : (t : ℕ) (ts : List ℕ) → waits t ts ≡ false → remove_target t ts ≡ ts
unfolding remove_target
remove_target-absent t [] e = refl
remove_target-absent t (u ∷ ts) e = ground (arith, remove_target-absent t ts)

length-remove_target :
    (t : ℕ) (ts : List ℕ)
    → IsDistinct ts
    → waits t ts ≡ true
    → suc (length (remove_target t ts)) ≡ length ts
unfolding remove_target
length-remove_target t [] d w = absurd (cc w)
length-remove_target t (u ∷ ts) (f, d) w = elim (Bool-cases (u == t)) [
  | inl e ↦ rw e (
      ap (λ l. suc (length l))
        (remove_target-absent t ts (subst (λ t. waits t ts ≡ false) ((==_iff u t).0 e) f)))
  | inr e ↦ rw e (ap suc (length-remove_target t ts d (later (u == t) e w)))
]
  where
    later : (b : Bool) → b ≡ false → (b || waits t ts) ≡ true → waits t ts ≡ true
    later true e w = absurd (cc e)
    later false e w = w

remove_target-IsDistinct : (t : ℕ) (ts : List ℕ) → IsDistinct ts → IsDistinct (remove_target t ts)
unfolding remove_target
remove_target-IsDistinct t [] d = tt
remove_target-IsDistinct t (u ∷ ts) (f, d) = elim (Bool-cases (u == t)) [
  | inl e ↦ rw e (remove_target-IsDistinct t ts d)
  | inr e ↦ rw e ((waits-remove_target u t ts e ∙ f, remove_target-IsDistinct t ts d))
]

target_ready-IsDistinct :
    (t : ℕ) (m : InitManager) → IsDistinct m.targets → IsDistinct (target_ready t m).targets
target_ready-IsDistinct t m d =
    subst IsDistinct (sym (targets-target_ready t m)) (remove_target-IsDistinct t m.targets d)

initialize_targets-IsDistinct :
    (calls_back : ℕ → Bool) (ts : List ℕ) (m : InitManager)
    → IsDistinct m.targets
    → IsDistinct (initialize_targets calls_back ts m).targets
unfolding initialize_targets initialize_target
initialize_targets-IsDistinct b [] m d = d
initialize_targets-IsDistinct b (t ∷ ts) m d =
    if_cases (λ x. IsDistinct (initialize_targets b ts x).targets) (b t) _ _
      (λ e. initialize_targets-IsDistinct b ts (target_ready t m) (target_ready-IsDistinct t m d))
      (λ e. initialize_targets-IsDistinct b ts m d)

initialize-IsDistinct :
    (calls_back : ℕ → Bool) (m : InitManager)
    → IsDistinct m.targets
    → IsDistinct (initialize calls_back m).targets
unfolding initialize
initialize-IsDistinct b m d =
    if_cases (λ (x : InitManager). IsDistinct x.targets) (length m.targets == 0) _ _ (λ e. d)
      (λ e. initialize_targets-IsDistinct b m.targets (record m { state = initializing }) d)

length-call_back :
    (ts : List ℕ) (m : InitManager)
    → IsDistinct m.targets
    → AreWaiting ts m
    → length (call_back ts m).targets + length ts ≡ length m.targets
length-call_back [] m d a = omega arith
length-call_back (t ∷ ts) m d (w, a) = omega (
  arith,
  length-call_back ts (target_ready t m) (target_ready-IsDistinct t m d) a,
  ap length (targets-target_ready t m),
  length-remove_target t m.targets d w,
)

-- However the targets call back, each once and while the server waits for it, the server is called
-- exactly once, with the last of them, and not before. The targets are distinct.
pub initialize-completes :
    (calls_back : ℕ → Bool) (m : InitManager) (ts : List ℕ)
    → IsDistinct m.targets
    → AreWaiting ts (initialize calls_back m)
    → ((call_back ts (initialize calls_back m)).callbacks ≡ (
        if length ts == length (initialize calls_back m).targets
        then suc m.callbacks
        else m.callbacks))
initialize-completes b m ts d a =
    called (call_back-IsSettled m.callbacks ts (initialize b m) a (initialize-IsSettled b m d))
      (length-call_back ts (initialize b m) (initialize-IsDistinct b m d) a)
  where
    called :
        IsSettled m.callbacks (call_back ts (initialize b m))
        → length (call_back ts (initialize b m)).targets + length ts
          ≡ length (initialize b m).targets
        → (call_back ts (initialize b m)).callbacks
          ≡ (if length ts == length (initialize b m).targets then suc m.callbacks else m.callbacks)
    called s e = ground arith
