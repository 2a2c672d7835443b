-- ===== src/LogVisualizer/Draw.antt =====
-- `draw` of the log visualizer: the squares of the chart and the ticks above it.
use colt_core.Base.{
  ℕ, zero, suc, ◌+◌, ◌-◌, ◌*◌, ◌/◌, ◌%◌, Bool, false, not, ◌&&◌, List, [], ◌∷◌, ◌++◌, ℤ, pos,
  negsuc, sub_ℕ, pos_part, neg_part, leb, ◌==◌, Text, codes, ltb, if◌then◌else◌,
}
use colt_core.LogVisualizer.{Counts, no_counts, Batch, Visualizer, ms_per_column, to_int32}

-- `messages[i].time < now - msPerColumn * c`
unfoldable pub is_before : ℕ → ℕ → ℤ → Bool
is_before now c (pos t) = ltb (t + ms_per_column * c) now
is_before now c (negsuc t) = ltb (ms_per_column * c) (now + suc t)

-- A batch is in the time range of column `c`.
unfoldable pub in_column : ℕ → ℕ → Batch → Bool
in_column now c b = is_before now c b.time && not (is_before now (c + 1) b.time)

-- The first three counts go up; the loop on the rows leaves the fourth.
unfoldable pub add_rows : Counts → Counts → Counts
add_rows counts m = record counts {
  errors = counts.errors + m.errors;
  warnings = counts.warnings + m.warnings;
  infos = counts.infos + m.infos;
}

-- The loop on `messages` that fills `counts`.
unfoldable pub count_column : ℕ → ℕ → Counts → List Batch → Counts
count_column now c counts [] = counts
count_column now c counts (b ∷ bs) =
    count_column now c (if in_column now c b then add_rows counts b.counts else counts) bs

-- A call of `fillRect`, with the `fillStyle` then set.
pub record Rect : Type 0 where
  pub fill : Text
  pub left : ℕ
  pub top : ℕ
  pub width : ℕ
  pub height : ℕ

abbrev pub grey : Text
grey = codes "#dee0e4"

-- `fillStyles[j]`, from the row's count and its colour.
unfoldable pub fill_style : Bool → ℕ → Text → Text
fill_style stopped count color = if stopped then grey else if ltb 0 count then color else grey

abbrev pub square : Text → ℕ → ℕ → Rect
square fill w h = record { fill = fill; left = w; top = h; width = 12; height = 12 }

-- The column's three squares, from its counts.
abbrev pub squares : Bool → Counts → ℕ → List Rect
squares stopped counts w =
    square (fill_style stopped counts.errors (codes "#ba2b19")) w 47
    ∷ square (fill_style stopped counts.warnings (codes "#f6c930")) w 60
    ∷ square (fill_style stopped counts.infos (codes "#2d67d0")) w 73
    ∷ []

-- One round of the loop on the columns: the column `c`, drawn at `w`.
unfoldable pub draw_column : ℕ → Visualizer → ℕ → ℕ → List Rect
draw_column now v c w = squares v.stopped (count_column now c no_counts v.messages) w

-- The loop on the columns, from `c` and `w` on, for as many rounds as the fuel allows.
unfoldable pub draw_columns : ℕ → ℕ → Visualizer → ℕ → ℕ → List Rect
draw_columns zero now v c w = []
draw_columns (suc fuel) now v c w =
    let rest = draw_columns fuel now v (c + 1) (w + 13) in
    if ltb (w + 30) v.width then draw_column now v c w ++ rest else []

-- A tick, with the number that is written over it. `line` and `left` are the places of the line and of
-- the number, in half pixels.
pub record Tick : Type 0 where
  pub line : ℤ
  pub label : ℤ
  pub left : ℤ

-- a % b for `b` above 0, with the sign of `a`.
unfoldable pub remainder : ℤ → ℕ → ℤ
remainder (pos n) b = pos (n % b)
remainder (negsuc n) b = sub_ℕ 0 (suc n % b)

-- `"" + ((now - j * msPerColumn) / 1000 | 0) % 60` as a number, where `j` is a - b.
unfoldable pub label_of : ℕ → ℕ → ℕ → ℤ
label_of now a b =
    let from = now + b * ms_per_column in
    let back = a * ms_per_column in
    if leb back from
    then remainder (to_int32 ((from - back) / 1000)) 60
    else sub_ℕ 0 ((back - from) / 1000 % 60)

-- `text.length` for a number of up to two digits.
unfoldable pub text_length : ℤ → ℕ
text_length (pos n) = if ltb n 10 then 1 else 2
text_length (negsuc n) = if ltb n 9 then 2 else 3

-- The loop on the ticks from `j` = a - b on, where `w` is 34.5 + 13 * j, for as many rounds as the fuel
-- allows. `skips` says that this is the first round and that `d` is 0.
unfoldable pub draw_ticks : ℕ → ℕ → ℕ → Bool → ℕ → ℕ → List Tick
draw_ticks zero now width skips a b = []
draw_ticks (suc fuel) now width skips a b =
    let rest = draw_ticks fuel now width false (a + 4) b in
    let label = label_of now a b in
    let tick : Tick = record {
      line = sub_ℕ (69 + 26 * a) (26 * b);
      label = label;
      left = sub_ℕ (69 + 26 * a) (26 * b + 6 * text_length label);
    } in
    if ltb (129 + 26 * a) (2 * width + 26 * b) then (if skips then rest else tick ∷ rest) else []

-- `((now / msPerColumn) | 0) % 4`
unfoldable pub first_tick : ℕ → ℤ
first_tick now = remainder (to_int32 (now / ms_per_column)) 4

abbrev pub is_zero : ℤ → Bool
is_zero (pos n) = n == 0
is_zero (negsuc n) = false

-- What a call of `draw` puts on the canvas that it has cleared, less the word under the legend.
pub record Drawing : Type 0 where
  pub rects : List Rect
  pub ticks : List Tick

-- The ticks of a page that is not stopped.
unfoldable pub ticks_of : ℕ → ℕ → List Tick
ticks_of now width =
    let d = first_tick now in draw_ticks (suc width) now width (is_zero d) (pos_part d) (neg_part d)

unfoldable pub draw : ℕ → Visualizer → Drawing
draw now v = record {
  rects =
      record { fill = codes "#f7f8fa"; left = 0; top = 0; width = v.width; height = 130 }
      ∷ draw_columns v.width now v 0 35;
  ticks = if v.stopped then [] else ticks_of now v.width;
}
