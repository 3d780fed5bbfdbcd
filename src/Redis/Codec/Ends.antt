-- ===== src/Redis/Codec/Ends.antt =====
-- The decoder's loop ends, and never uses the stack or the union of a value in a way that the
-- language leaves undefined.
use meliproxy.Redis.Codec.{Outcome, decoded, failed, overlong, misused, stuck}
use meliproxy.Redis.Codec.Steps.{IsValid}

-- A call returns, with a valid decoder, or throws.
abbrev pub Returns : Outcome → Type 0
Returns (decoded d out) = IsValid d
Returns (failed out) = Unit
Returns (overlong out) = Unit
Returns misused = ⊥
Returns stuck = ⊥
