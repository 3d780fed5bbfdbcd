-- ===== src/Http/DownstreamWatermarks/Tests.antt =====
-- Runs of the watermarks of a stream.
use meliproxy.Http.DownstreamWatermarks.{
  callbacks-Agree, IsReachable, starts, steps, StreamWatermarks, goes_above, goes_below,
  adds_callbacks, step, Agrees, call_high_watermark_callbacks, add_downstream_watermark_callbacks,
}
use meliproxy.Shared.{◌^◌, none, arith, ◌<◌}

abbrev two_high : StreamWatermarks
two_high =
    step goes_above
      (step goes_above (record { high_watermark_count = 0; watermark_callbacks = none }))

two_high-IsReachable : IsReachable two_high
unfolding step call_high_watermark_callbacks
two_high-IsReachable = steps goes_above _ (steps goes_above _ starts (omega arith)) (omega arith)

abbrev one_low : StreamWatermarks
one_low = step goes_below (step adds_callbacks two_high)

one_low-IsReachable : IsReachable one_low
unfolding step call_high_watermark_callbacks add_downstream_watermark_callbacks
one_low-IsReachable =
    steps goes_below _ (steps adds_callbacks _ two_high-IsReachable tt) (omega arith)

callbacks-Agree_example :
    (one_low.high_watermark_count < 2 ^ 32)
    × Agrees one_low.watermark_callbacks one_low.high_watermark_count
callbacks-Agree_example = callbacks-Agree one_low one_low-IsReachable
