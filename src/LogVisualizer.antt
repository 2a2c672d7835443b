-- ===== src/LogVisualizer.antt =====
-- The page of the log visualizer, logVisualizer/html/log-visualizer-webview.html: a chart of the levels
-- of the messages of the last seconds. A time is what `Date.now` returns, in milliseconds.
pub mod Draw
pub mod Kept
pub mod Rows
pub mod Chart
pub mod Ticks
pub mod Whole
pub mod Years
pub mod Examples
use colt_core.Base.{
  ℕ, zero, suc, ◌+◌, ◌-◌, ◌*◌, ◌/◌, ◌%◌, Bool, true, false, not, ◌&&◌, ◌||◌, List, [], ◌∷◌, ◌++◌, ℤ,
  pos, negsuc, sub_ℕ, pos_part, neg_part, leb, ◌==◌, Text, codes, text_eq, ltb, length,
  if◌then◌else◌,
}

-- `[0, 0, 0, 0]`: a number for each row of the chart, and one for the row that is not drawn.
pub record Counts : Type 0 where
  pub errors : ℕ
  pub warnings : ℕ
  pub infos : ℕ
  pub lives : ℕ

abbrev pub no_counts : Counts
no_counts = record { errors = 0; warnings = 0; infos = 0; lives = 0 }

-- `{counts: …, time: t}`
pub record Batch : Type 0 where
  pub counts : Counts
  pub time : ℤ

-- `stopped`, `messages` with the newest batch first, and the width of the canvas.
pub record Visualizer : Type 0 where
  pub stopped : Bool
  pub messages : List Batch
  pub width : ℕ

-- After `init`, in a window that is as wide as given.
unfoldable pub init : ℕ → Visualizer
init width = record { stopped = true; messages = []; width = width }

abbrev pub ms_per_column : ℕ
ms_per_column = 1000

-- `n | 0`: the low 32 bits, as a number with a sign.
unfoldable pub to_int32 : ℕ → ℤ
to_int32 n =
    let r = n % 4294967296 in if ltb r 2147483648 then pos r else negsuc (4294967296 - r - 1)

-- `((now / msPerColumn) | 0) * msPerColumn`
unfoldable pub times_column : ℤ → ℤ
times_column (pos n) = pos (n * ms_per_column)
times_column (negsuc n) = negsuc (n * ms_per_column + (ms_per_column - 1))

unfoldable pub quantized : ℕ → ℤ
quantized now = times_column (to_int32 (now / ms_per_column))

-- The `switch` on the name of a level, for one message.
unfoldable pub count_level : Counts → Text → Counts
count_level m name =
    if text_eq name (codes "FATAL") || text_eq name (codes "ERROR")
    then record m { errors = m.errors + 1 }
    else if text_eq name (codes "WARN")
    then record m { warnings = m.warnings + 1 }
    else if text_eq name (codes "INFO")
    then record m { infos = m.infos + 1 }
    else if text_eq name (codes "LIVE")
    then record m { lives = m.lives + 1 }
    else m

unfoldable pub count_levels : Counts → List Text → Counts
count_levels m [] = m
count_levels m (name ∷ names) = count_levels (count_level m name) names

-- `messages.pop()`
abbrev pub pop {ℓ} : {A : Type ℓ} → List A → List A
pop [] = []
pop (x ∷ []) = []
pop (x ∷ y ∷ xs) = x ∷ pop (y ∷ xs)

abbrev pub most_batches : ℕ
most_batches = 5000

-- `addLogMessages`, on the names of the levels.
unfoldable pub add_log_messages : ℕ → List Text → Visualizer → Visualizer
add_log_messages now levels v =
    let m : Batch = record { counts = count_levels no_counts levels; time = quantized now } in
    let messages = m ∷ v.messages in
    record v { messages = if ltb most_batches (length messages) then pop messages else messages }

unfoldable pub clear_messages : Visualizer → Visualizer
clear_messages v = record v { messages = [] }

unfoldable pub start : Visualizer → Visualizer
start v = clear_messages (record v { stopped = false })

unfoldable pub stop : Visualizer → Visualizer
stop v = clear_messages (record v { stopped = true })

unfoldable pub pause : Visualizer → Visualizer
pause v = record v { stopped = true }

-- `resizeCanvas`, less the call of `draw`.
unfoldable pub resize_canvas : ℕ → Visualizer → Visualizer
resize_canvas width v = record v { width = width }

-- What the application and the window do to the page.
pub data Event : Type 0 where
  adds_messages : ℕ → List Text → Event
  starts : Event
  stops : Event
  pauses : Event
  resizes : ℕ → Event

unfoldable pub happen : Event → Visualizer → Visualizer
happen (adds_messages now levels) v = add_log_messages now levels v
happen starts v = start v
happen stops v = stop v
happen pauses v = pause v
happen (resizes width) v = resize_canvas width v

unfoldable pub run : List Event → Visualizer → Visualizer
run [] v = v
run (e ∷ events) v = run events (happen e v)
