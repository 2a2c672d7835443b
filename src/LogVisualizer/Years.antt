-- ===== src/LogVisualizer/Years.antt =====
-- The chart from the 19th of January 2038 on, when the seconds no longer fit a number of 32 bits.
use colt_core.Base.{
  ℕ, ◌+◌, ◌-◌, ◌*◌, ◌/◌, ◌≤◌, ◌<◌, ◌≡◌, refl, false, List, ◌∷◌, negsuc, arith, length, Text, ltb,
}
use colt_core.LogVisualizer.{
  Batch, Visualizer, most_batches, no_counts, to_int32, times_column, quantized, add_log_messages,
}
use colt_core.LogVisualizer.Draw.{is_before, in_column, count_column, draw}
use colt_core.LogVisualizer.Kept.{batch}
use colt_core.LogVisualizer.Chart.{draw-same}

quantized_late :
    (t : ℕ)
    → 2147483648000 ≤ t
    → t < 4294967296000
    → quantized t ≡ negsuc ((4294967295 - t / 1000) * 1000 + 999)
unfolding quantized to_int32 times_column
quantized_late t h l = ground (arith, h, l)

late_out :
    (t now c : ℕ) (levels : List Text)
    → 2147483648000 ≤ t
    → t < 4294967296000
    → t ≤ now
    → c < 1000000
    → in_column now c (batch t levels) ≡ false
unfolding in_column is_before
late_out t now c levels h l k b = rw (quantized_late t h l) (ground (arith, h, l, k, b))

column-late :
    (t now c : ℕ) (levels : List Text) (bs : List Batch)
    → 2147483648000 ≤ t
    → t < 4294967296000
    → t ≤ now
    → c < 1000000
    → count_column now c no_counts (batch t levels ∷ bs) ≡ count_column now c no_counts bs
unfolding count_column
column-late t now c levels bs h l k b = rw (late_out t now c levels h l k b) refl

-- From the 19th of January 2038 to 2106, messages that come are not drawn: where fewer than 5,000 batches
-- are kept, in a window up to a million pixels wide, the chart is at any later time what it is without them.
pub draw-add_log_messages :
    (t now : ℕ) (levels : List Text) (v : Visualizer)
    → 2147483648000 ≤ t
    → t < 4294967296000
    → t ≤ now
    → length v.messages < most_batches
    → v.width ≤ 1000000
    → draw now (add_log_messages t levels v) ≡ draw now v
unfolding add_log_messages
draw-add_log_messages t now levels v h l k room narrow =
    let fits : ltb most_batches (length (batch t levels ∷ v.messages)) ≡ false =
      ground (arith, room) in
    rw fits (
      draw-same now (record v { messages = batch t levels ∷ v.messages }) v refl refl
        (λ d b. column-late t now d levels v.messages h l k (omega (arith, b, narrow))))
