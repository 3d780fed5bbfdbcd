-- ===== src/Buffer/Watermark/Tests.antt =====
-- Runs of a buffer with watermarks, and the theorems on it at concrete inputs.
use meliproxy.Buffer.Watermark.{
  WatermarkBuffer, Operation, fresh, step, adds, drains, sets, set_watermarks, add, drain,
  above_high_watermark, below_low_watermark, check_high_watermark, check_low_watermark,
}
use meliproxy.Buffer.Watermark.Callbacks.{
  IsAlternating, IsSettled, CallsAtTurns, run, fresh-IsAlternating, step-IsSettled,
}
use meliproxy.Shared.{◌∷◌, refl, List, false, [], ◌≡◌, arith, inr}

abbrev up_and_down : List Operation
up_and_down = sets 5 10 ∷ adds 11 ∷ adds 20 ∷ drains 5 ∷ drains 4 ∷ []

up_and_down_called :
    (run fresh up_and_down).called ≡ below_low_watermark ∷ above_high_watermark ∷ []
unfolding fresh step set_watermarks add drain check_high_watermark check_low_watermark
up_and_down_called = refl

fresh-IsAlternating_example : IsAlternating (run fresh up_and_down)
fresh-IsAlternating_example = fresh-IsAlternating up_and_down

abbrev half_full : WatermarkBuffer
half_full = record {
  length = 7;
  high_watermark = 10;
  low_watermark = 5;
  above_high_watermark_called = false;
  called = [];
}

half_full-IsSettled : IsSettled half_full
half_full-IsSettled = (λ e. inr (omega arith), λ e. cc, omega arith)

step-IsSettled_example :
    IsSettled (step half_full (adds 11)) × CallsAtTurns half_full (step half_full (adds 11))
step-IsSettled_example = step-IsSettled half_full (adds 11) half_full-IsSettled (omega arith)
