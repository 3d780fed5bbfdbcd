-- ===== src/Upstream/LoadBalancer/Choices.antt =====
-- The three balancers on top of `hostsToUse`.
use meliproxy.Upstream.LoadBalancer.{Choice, chosen, no_host, past_end, LeastRequest}

-- A choice that has read no vector past its end.
abbrev pub IsInside : Choice → Type 0
IsInside (chosen host) = Unit
IsInside no_host = Unit
IsInside past_end = ⊥

abbrev IsChosen : Choice → Type 0
IsChosen (chosen host) = Unit
IsChosen no_host = ⊥
IsChosen past_end = ⊥

abbrev Inside : Choice × LeastRequest → Type 0
Inside r = IsInside r.0
