-- ===== src/LogVisualizer/Chart.antt =====
-- The columns that the log visualizer draws.
use colt_core.Base.{
  ℕ, zero, suc, ◌+◌, ◌-◌, ◌*◌, ◌/◌, ◌≤◌, ◌<◌, ◌≡◌, true, refl, ap, ◌∙◌, subst, sym, List, [], ◌∷◌,
  ◌++◌, codes, arith, if◌then◌else◌, ltb,
}
use colt_core.LogVisualizer.{Visualizer, no_counts}
use colt_core.LogVisualizer.Draw.{
  Rect, count_column, squares, draw_column, draw_columns, draw, ticks_of,
}

-- `n` columns, from the column `c` on.
unfoldable pub columns : ℕ → ℕ → Visualizer → ℕ → List Rect
columns zero now v c = []
columns (suc n) now v c = draw_column now v c (35 + 13 * c) ++ columns n now v (c + 1)

abbrev pub background : Visualizer → Rect
background v = record { fill = codes "#f7f8fa"; left = 0; top = 0; width = v.width; height = 130 }

draw_columns_lem :
    (fuel now : ℕ) (v : Visualizer) (c w n : ℕ)
    → w ≡ 35 + 13 * c
    → v.width ≤ fuel + 30 + w
    → n ≡ (v.width - (18 + w)) / 13
    → draw_columns fuel now v c w ≡ columns n now v c
unfolding draw_columns columns
draw_columns_lem zero now v c w n e h k =
    let none_left : 0 ≡ n = omega (arith, e, h, k) in
    subst (λ m. [] ≡ columns m now v c) none_left refl
draw_columns_lem (suc fuel) now v c w zero e h k = ground (arith, e, h, k)
draw_columns_lem (suc fuel) now v c w (suc n) e h k =
    let drawn : ltb (w + 30) v.width ≡ true = ground (arith, k) in
    rw drawn (
      ap (λ z. draw_column now v c z ++ draw_columns fuel now v (c + 1) (w + 13)) e
      ∙ ap (λ rest. draw_column now v c (35 + 13 * c) ++ rest)
          (draw_columns_lem fuel now v (c + 1) (w + 13) n (omega (arith, e)) (omega (arith, h))
            (omega (arith, k))))

-- In a window of the width `W` the chart has (W - 53) / 13 columns, none below 66 pixels, 13 pixels apart
-- from 35 on, the newest first and each in full, over the background of the canvas: the loop ends there.
pub draw_lem :
    (now : ℕ) (v : Visualizer)
    → (draw now v).rects ≡ background v ∷ columns ((v.width - 53) / 13) now v 0
unfolding draw
draw_lem now v =
    ap (λ rest. background v ∷ rest)
      (draw_columns_lem v.width now v 0 35 ((v.width - 53) / 13) refl (omega arith) refl)

draw_column-same :
    (now : ℕ) (v w : Visualizer) (c left : ℕ)
    → v.stopped ≡ w.stopped
    → count_column now c no_counts v.messages ≡ count_column now c no_counts w.messages
    → draw_column now v c left ≡ draw_column now w c left
unfolding draw_column
draw_column-same now v w c left e h =
    ap (λ b. squares b (count_column now c no_counts v.messages) left) e
    ∙ ap (λ counts. squares w.stopped counts left) h

-- Where the counts of the columns agree, so do the columns.
columns-same :
    (n now : ℕ) (v w : Visualizer) (c : ℕ)
    → v.stopped ≡ w.stopped
    → ((d : ℕ)
        → d < c + n
        → count_column now d no_counts v.messages ≡ count_column now d no_counts w.messages)
    → columns n now v c ≡ columns n now w c
unfolding columns
columns-same zero now v w c e h = refl
columns-same (suc n) now v w c e h =
    ap (λ column. column ++ columns n now v (c + 1))
      (draw_column-same now v w c (35 + 13 * c) e (h c (omega arith)))
    ∙ ap (λ rest. draw_column now w c (35 + 13 * c) ++ rest)
        (columns-same n now v w (c + 1) e (λ d l. h d (omega (arith, l))))

rects-same :
    (now : ℕ) (v w : Visualizer)
    → v.stopped ≡ w.stopped
    → v.width ≡ w.width
    → ((d : ℕ)
        → d < (v.width - 53) / 13
        → count_column now d no_counts v.messages ≡ count_column now d no_counts w.messages)
    → (draw now v).rects ≡ (draw now w).rects
rects-same now v w e k h =
    draw_lem now v
    ∙ ap (λ rest. background v ∷ rest)
        (columns-same ((v.width - 53) / 13) now v w 0 e (λ d l. h d (omega (arith, l))))
    ∙ ap
        (λ width.
          record { fill = codes "#f7f8fa"; left = 0; top = 0; width = width; height = 130 }
          ∷ columns ((width - 53) / 13) now w 0)
        k
    ∙ sym (draw_lem now w)

ticks-same :
    (now : ℕ) (v w : Visualizer)
    → v.stopped ≡ w.stopped
    → v.width ≡ w.width
    → (draw now v).ticks ≡ (draw now w).ticks
unfolding draw
ticks-same now v w e k =
    ap (λ stopped. if stopped then [] else ticks_of now v.width) e
    ∙ ap (λ width. if w.stopped then [] else ticks_of now width) k

pub draw-same :
    (now : ℕ) (v w : Visualizer)
    → v.stopped ≡ w.stopped
    → v.width ≡ w.width
    → ((d : ℕ)
        → d < (v.width - 53) / 13
        → count_column now d no_counts v.messages ≡ count_column now d no_counts w.messages)
    → draw now v ≡ draw now w
draw-same now v w e k h =
    ap (λ rects. record { rects = rects; ticks = (draw now v).ticks }) (rects-same now v w e k h)
    ∙ ap (λ ticks. record { rects = (draw now w).rects; ticks = ticks }) (ticks-same now v w e k)
