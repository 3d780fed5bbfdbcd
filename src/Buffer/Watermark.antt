-- ===== src/Buffer/Watermark.antt =====
-- envoy/envoy/source/common/buffer/watermark_buffer.h and watermark_buffer.cc. The bytes are kept by
-- the buffer of libevent below: an operation is given the length that this has when its call returns.
pub mod Callbacks
pub mod Tests
use meliproxy.Shared.{
  ℕ, [], ◌||◌, ◌∷◌, Bool, not, ◌==◌, List, ◌&&◌, ◌/◌, if◌then◌else◌, false, leb, true,
}

pub data Callback : Type 0 where
  above_high_watermark below_low_watermark : Callback

-- `WatermarkBuffer`, with the callbacks called so far, last first.
pub record WatermarkBuffer : Type 0 where
  pub length : ℕ
  pub high_watermark : ℕ
  pub low_watermark : ℕ
  pub above_high_watermark_called : Bool
  pub called : List Callback

pub fresh : WatermarkBuffer
fresh = record {
  length = 0;
  high_watermark = 0;
  low_watermark = 0;
  above_high_watermark_called = false;
  called = [];
}

pub check_low_watermark : WatermarkBuffer → WatermarkBuffer
check_low_watermark w =
    if not w.above_high_watermark_called
      || (not (w.high_watermark == 0) && leb w.low_watermark w.length)
    then w
    else record w { above_high_watermark_called = false; called = below_low_watermark ∷ w.called }

pub check_high_watermark : WatermarkBuffer → WatermarkBuffer
check_high_watermark w =
    if w.above_high_watermark_called || (w.high_watermark == 0 || leb w.length w.high_watermark)
    then w
    else record w { above_high_watermark_called = true; called = above_high_watermark ∷ w.called }

abbrev resized : ℕ → WatermarkBuffer → WatermarkBuffer
resized n w = record w { length = n }

pub add : WatermarkBuffer → ℕ → WatermarkBuffer
add w n = check_high_watermark (resized n w)

pub commit : WatermarkBuffer → ℕ → WatermarkBuffer
commit w n = check_high_watermark (resized n w)

pub drain : WatermarkBuffer → ℕ → WatermarkBuffer
drain w n = check_low_watermark (resized n w)

pub move : WatermarkBuffer → ℕ → WatermarkBuffer
move w n = check_high_watermark (resized n w)

pub read : WatermarkBuffer → ℕ → WatermarkBuffer
read w n = check_high_watermark (resized n w)

pub reserve : WatermarkBuffer → ℕ → WatermarkBuffer
reserve w n = check_high_watermark (resized n w)

pub write : WatermarkBuffer → ℕ → WatermarkBuffer
write w n = check_low_watermark (resized n w)

-- `postProcess`, called by the buffer that takes bytes out of this one.
pub post_process : WatermarkBuffer → ℕ → WatermarkBuffer
post_process w n = check_low_watermark (resized n w)

pub set_watermarks : WatermarkBuffer → ℕ → ℕ → WatermarkBuffer
set_watermarks w low high =
    check_low_watermark
      (check_high_watermark (record w { low_watermark = low; high_watermark = high }))

-- `setWatermarks` with one mark.
pub set_watermark : WatermarkBuffer → ℕ → WatermarkBuffer
set_watermark w watermark = set_watermarks w (watermark / 2) watermark

-- A call of one of the operations.
pub data Operation : Type 0 where
  adds commits drains moves reads reserves writes processes : ℕ → Operation
  sets : ℕ → ℕ → Operation

pub step : WatermarkBuffer → Operation → WatermarkBuffer
unfolding add commit drain move read reserve write post_process set_watermarks
step w (adds n) = add w n
step w (commits n) = commit w n
step w (drains n) = drain w n
step w (moves n) = move w n
step w (reads n) = read w n
step w (reserves n) = reserve w n
step w (writes n) = write w n
step w (processes n) = post_process w n
step w (sets low high) = set_watermarks w low high
