-- ===== src/LogVisualizer/Whole.antt =====
-- The chart of the kept batches, against the chart of all that have come.
use colt_core.Base.{
  ℕ, zero, suc, ◌+◌, ◌*◌, ◌/◌, ◌≤◌, ◌<◌, ◌≡◌, refl, ◌∙◌, sym, ap, if◌then◌else◌, false, List, [],
  ◌∷◌, pos, arith, take,
}
use colt_core.LogVisualizer.{
  Counts, Batch, Event, adds_messages, starts, stops, pauses, resizes, init, no_counts, to_int32,
  times_column, quantized, run, most_batches,
}
use colt_core.LogVisualizer.Draw.{is_before, in_column, add_rows, count_column, draw}
use colt_core.LogVisualizer.Kept.{batch, arrived, run-messages}
use colt_core.LogVisualizer.Chart.{draw-same}

-- Until the 19th of January 2038 the quantized time is the beginning of its second.
quantized_lem : (t : ℕ) → t < 2147483648000 → quantized t ≡ pos (t / 1000 * 1000)
unfolding quantized to_int32 times_column
quantized_lem t h = ground (arith, h)

-- The batch is at least `k` milliseconds old.
abbrev pub IsAged : ℕ → ℕ → Batch → Type 0
IsAged k now b = (t : ℕ) × (b.time ≡ quantized t) × (t + k ≤ now)

-- The batches came at least a tenth of a second apart, the newest at least `k` milliseconds ago.
unfoldable pub Apart : ℕ → ℕ → List Batch → Type 0
Apart k now [] = Unit
Apart k now (b ∷ bs) = IsAged k now b × Apart (k + 100) now bs

Apart-later :
    (k l now later : ℕ) (bs : List Batch) → now + l ≤ later + k → Apart k now bs → Apart l later bs
unfolding Apart
Apart-later k l now later [] h a = tt
Apart-later k l now later (b ∷ bs) h ((t, e, o), a) =
    ((t, e, omega (arith, o, h)), Apart-later (k + 100) (l + 100) now later bs (omega (arith, h)) a)

-- The batches of the events come at least a tenth of a second after the time given and after each other,
-- and not after `now`.
unfoldable pub IsSpaced : ℕ → ℕ → List Event → Type 0
IsSpaced since now [] = since ≤ now
IsSpaced since now (adds_messages t levels ∷ events) = (since + 100 ≤ t) × IsSpaced t now events
IsSpaced since now (starts ∷ events) = IsSpaced since now events
IsSpaced since now (stops ∷ events) = IsSpaced since now events
IsSpaced since now (pauses ∷ events) = IsSpaced since now events
IsSpaced since now (resizes width ∷ events) = IsSpaced since now events

arrived-Apart :
    (events : List Event) (since now : ℕ) (bs : List Batch)
    → IsSpaced since now events
    → Apart 0 since bs
    → Apart 0 now (arrived events bs)
unfolding arrived IsSpaced Apart
arrived-Apart [] since now bs h a = Apart-later 0 0 since now bs (omega (arith, h)) a
arrived-Apart (adds_messages t levels ∷ events) since now bs (h, hs) a =
    arrived-Apart events t now (batch t levels ∷ bs) hs
      ((t, refl, omega arith), Apart-later 0 100 since t bs (omega (arith, h)) a)
arrived-Apart (starts ∷ events) since now bs h a = arrived-Apart events since now [] h tt
arrived-Apart (stops ∷ events) since now bs h a = arrived-Apart events since now [] h tt
arrived-Apart (pauses ∷ events) since now bs h a = arrived-Apart events since now bs h a
arrived-Apart (resizes width ∷ events) since now bs h a = arrived-Apart events since now bs h a

-- What is old enough is in none of the first columns.
aged-out :
    (k now c : ℕ) (b : Batch)
    → now < 2147483648000
    → 1000 * (c + 1) < k
    → IsAged k now b
    → in_column now c b ≡ false
unfolding in_column is_before
aged-out k now c b n h (t, e, o) =
    rw e (rw (quantized_lem t (omega (arith, n, o))) (ground (arith, h, o)))

count_column-aged :
    (k now c : ℕ) (counts : Counts) (bs : List Batch)
    → now < 2147483648000
    → 1000 * (c + 1) < k
    → Apart k now bs
    → count_column now c counts bs ≡ counts
unfolding count_column Apart
count_column-aged k now c counts [] n h a = refl
count_column-aged k now c counts (b ∷ bs) n h (o, a) =
    rw (aged-out k now c b n h o)
      (count_column-aged (k + 100) now c counts bs n (omega (arith, h)) a)

count_column-take :
    (m k now c : ℕ) (counts : Counts) (bs : List Batch)
    → now < 2147483648000
    → 1000 * (c + 1) < k + 100 * m
    → Apart k now bs
    → count_column now c counts (take m bs) ≡ count_column now c counts bs
unfolding count_column Apart
count_column-take zero k now c counts bs n h a =
    sym (count_column-aged k now c counts bs n (omega (arith, h)) a)
count_column-take (suc m) k now c counts [] n h a = refl
count_column-take (suc m) k now c counts (b ∷ bs) n h (o, a) =
    count_column-take m (k + 100) now c
      (if in_column now c b then add_rows counts b.counts else counts) bs n (omega (arith, h)) a

-- In a window up to 6,552 pixels wide, where batches come at least a tenth of a second apart and the time
-- is before the 19th of January 2038: whatever is done to the page from its start on, it draws what it
-- would draw with all batches kept that have come since it was last cleared, although it keeps 5,000.
pub run-draw :
    (events : List Event) (width since now : ℕ)
    → IsSpaced since now events
    → now < 2147483648000
    → (run events (init width)).width ≤ 6552
    → draw now (run events (init width))
      ≡ draw now (record (run events (init width)) { messages = arrived events [] })
unfolding init Apart
run-draw events width since now s n w =
    let v = run events (init width) in
    let apart = arrived-Apart events since now [] s tt in
    draw-same now v (record v { messages = arrived events [] }) refl refl
      (λ d l.
        ap (count_column now d no_counts) (run-messages events [] (init width) refl)
        ∙ count_column-take most_batches 0 now d no_counts (arrived events []) n
            (omega (arith, l, w)) apart)
