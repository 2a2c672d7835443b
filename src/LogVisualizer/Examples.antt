-- ===== src/LogVisualizer/Examples.antt =====
-- The theorems on the log visualizer at concrete inputs.
use colt_core.Base.{
  ◌-◌, ◌/◌, ◌≡◌, refl, ◌≤◌, ◌<◌, length, sub_ℕ, pos, false, List, [], ◌∷◌, codes, arith, map,
}
use colt_core.LogVisualizer.{
  Visualizer, Event, adds_messages, starts, resizes, init, count_level, count_levels, most_batches,
  to_int32, times_column, quantized, add_log_messages, clear_messages, start, resize_canvas, happen,
  run,
}
use colt_core.LogVisualizer.Draw.{
  Rect, is_before, in_column, add_rows, count_column, fill_style, draw_column, draw_columns, draw,
  ticks_of, first_tick, draw_ticks, label_of, remainder, text_length,
}
use colt_core.LogVisualizer.Kept.{arrived}
use colt_core.LogVisualizer.Rows.{of_warnings, in_chart, row_sum, total, row_sum-total}
use colt_core.LogVisualizer.Chart.{background, columns, draw_lem}
use colt_core.LogVisualizer.Whole.{IsSpaced, run-draw}
use colt_core.LogVisualizer.Years.{draw-add_log_messages}

-- A session of three seconds, in a window with room for two columns.
abbrev session : List Event
session =
    starts
    ∷ adds_messages 5100 (codes "INFO" ∷ codes "WARN" ∷ [])
    ∷ resizes 80
    ∷ adds_messages 6300 (codes "ERROR" ∷ codes "SYNTAX" ∷ [])
    ∷ []

abbrev chart : Visualizer
chart = run session (init 300)

session_fills :
    map (λ (r : Rect). r.fill) (draw 6900 chart).rects
    ≡ codes "#f7f8fa"
      ∷ codes "#ba2b19"
      ∷ codes "#dee0e4"
      ∷ codes "#dee0e4"
      ∷ codes "#dee0e4"
      ∷ codes "#f6c930"
      ∷ codes "#2d67d0"
      ∷ []
unfolding init count_level count_levels to_int32 times_column quantized add_log_messages
    clear_messages start resize_canvas is_before in_column add_rows count_column fill_style
    draw_column draw_columns draw happen run
session_fills = refl

session-IsSpaced : IsSpaced 5000 6900 session
unfolding IsSpaced
session-IsSpaced = (omega arith, (omega arith, omega arith))

session_narrow : chart.width ≤ 6552
unfolding run happen init start clear_messages add_log_messages resize_canvas
session_narrow = omega arith

init_room : length (init 300).messages < most_batches
unfolding init
init_room = omega arith

init_narrow : (init 300).width ≤ 1000000
unfolding init
init_narrow = omega arith

run-draw_example :
    draw 6900 (run session (init 300))
    ≡ draw 6900 (record (run session (init 300)) { messages = arrived session [] })
run-draw_example = run-draw session 300 5000 6900 session-IsSpaced (omega arith) session_narrow

row_sum-total_example :
    row_sum 6900 2 of_warnings chart.messages ≡ total (in_chart 6900 2) of_warnings chart.messages
row_sum-total_example = row_sum-total 6900 2 of_warnings chart.messages

draw_lem_example :
    (draw 6900 chart).rects ≡ background chart ∷ columns ((chart.width - 53) / 13) 6900 chart 0
draw_lem_example = draw_lem 6900 chart

draw-add_log_messages_example :
    draw 2147483649000 (add_log_messages 2147483648500 (codes "ERROR" ∷ []) (init 300))
    ≡ draw 2147483649000 (init 300)
draw-add_log_messages_example =
    draw-add_log_messages 2147483648500 2147483649000 (codes "ERROR" ∷ []) (init 300) (omega arith)
      (omega arith) (omega arith) init_room init_narrow

-- A page that runs, in a window with room for one tick.
abbrev wide : Visualizer
wide = record { stopped = false; messages = []; width = 120 }

wide_ticks :
    (draw 206900 wide).ticks ≡ record { line = pos 121; label = pos 24; left = pos 109 } ∷ []
unfolding draw ticks_of first_tick draw_ticks label_of to_int32 remainder text_length sub_ℕ
wide_ticks = refl
