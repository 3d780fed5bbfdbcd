-- ===== src/Runtime/Tests.antt =====
-- Runs of the runtime snapshot, and its theorems at concrete inputs.
use meliproxy.Runtime.{Snapshot, Random, get_integer, feature_enabled, feature_enabled_at}
use meliproxy.Runtime.Sampling.{feature_enabled-sampled, feature_enabled_of-share, enabled_below}
use meliproxy.Shared.{[], ◌+◌, codes, min, ◌∷◌, ◌≡◌, some, refl}

abbrev half_on : Snapshot
half_on = ("feature", record { string_value = codes "50"; uint_value = some 50 }) ∷ []

abbrev counting : Random
counting = record { draws = λ n. n + 149; used = 0 }

half_on_value : get_integer half_on "feature" 100 ≡ 50
unfolding get_integer
half_on_value = refl

feature_enabled-sampled_example :
    (feature_enabled half_on counting "feature" 100).0
    ≡ feature_enabled_at half_on "feature" 100 149
feature_enabled-sampled_example = (feature_enabled-sampled half_on counting "feature" 100).0

feature_enabled_of-share_example :
    enabled_below half_on "feature" 100 200 200 ≡ min (get_integer half_on "feature" 100) 200
feature_enabled_of-share_example = feature_enabled_of-share half_on "feature" 100 200
