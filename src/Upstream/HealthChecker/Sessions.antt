-- ===== src/Upstream/HealthChecker/Sessions.antt =====
-- The map of sessions: one session to a host, and the number of hosts in it that are not flagged.
use meliproxy.Upstream.HealthChecker.{Session, put, find, erase, update}
use meliproxy.Shared.{
  refl, Bool, some, ◌≡◌, List, arith, ◌+◌, none, ◌∷◌, [], ◌==◌, ℕ, if◌then◌else◌,
}

abbrev pub Sessions : Type 0
Sessions = List (ℕ × Session)

-- Each host has one session at most.
abbrev pub Distinct : Sessions → Type 0
Distinct [] = Unit
Distinct ((k, t) ∷ m) = (find k m ≡ none) × Distinct m

abbrev pub up : Bool → ℕ
up b = if b then 0 else 1

-- The hosts that are not flagged.
abbrev pub healthy_hosts : (ℕ → Bool) → Sessions → ℕ
healthy_hosts f [] = 0
healthy_hosts f ((k, t) ∷ m) = up (f k) + healthy_hosts f m

pub find-put :
    (h j : ℕ) (s : Session) (m : Sessions)
    → find j (put h s m) ≡ (if h == j then some s else find j m)
unfolding find put
find-put h j s [] = refl
find-put h j s ((k, t) ∷ m) = ground (arith, find-put h j s m)

pub put-Distinct : (h : ℕ) (s : Session) (m : Sessions) → Distinct m → Distinct (put h s m)
unfolding find put
put-Distinct h s [] d = (refl, tt)
put-Distinct h s ((k, t) ∷ m) (n, d) = ground (arith, find-put h k s m, put-Distinct h s m d)

pub put-healthy_hosts :
    (f : ℕ → Bool) (h : ℕ) (s : Session) (m : Sessions)
    → healthy_hosts f (put h s m)
      ≡ healthy_hosts f m + elim (find h m) [ none ↦ up (f h) | some t ↦ 0 ]
unfolding find put
put-healthy_hosts f h s [] = omega arith
put-healthy_hosts f h s ((k, t) ∷ m) = ground (arith, put-healthy_hosts f h s m)

pub update-absent :
    (f : ℕ → Bool) (h : ℕ) (b : Bool) (m : Sessions)
    → find h m ≡ none
    → healthy_hosts (update f h b) m ≡ healthy_hosts f m
unfolding find
update-absent f h b [] e = refl
update-absent f h b ((k, t) ∷ m) e = ground (arith, update-absent f h b m)

pub update-present :
    (f : ℕ → Bool) (h : ℕ) (b : Bool) (s : Session) (m : Sessions)
    → Distinct m
    → find h m ≡ some s
    → healthy_hosts (update f h b) m + up (f h) ≡ healthy_hosts f m + up b
unfolding find
update-present f h b s [] d e = cc
update-present f h b s ((k, t) ∷ m) (n, d) e =
    ground (arith, update-absent f h b m, update-present f h b s m d)

pub erase-healthy_hosts :
    (f : ℕ → Bool) (h : ℕ) (s : Session) (m : Sessions)
    → find h m ≡ some s
    → healthy_hosts f m ≡ healthy_hosts f (erase h m) + up (f h)
unfolding find erase
erase-healthy_hosts f h s [] e = cc
erase-healthy_hosts f h s ((k, t) ∷ m) e = ground (arith, erase-healthy_hosts f h s m)

pub find-erase : (h j : ℕ) (m : Sessions) → find j m ≡ none → find j (erase h m) ≡ none
unfolding find erase
find-erase h j [] e = refl
find-erase h j ((k, t) ∷ m) e = ground (arith, find-erase h j m)

pub erase-Distinct : (h : ℕ) (m : Sessions) → Distinct m → Distinct (erase h m)
unfolding erase
erase-Distinct h [] d = tt
erase-Distinct h ((k, t) ∷ m) (n, d) = ground (arith, find-erase h k m n, erase-Distinct h m d)
