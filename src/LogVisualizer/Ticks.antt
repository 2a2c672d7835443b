-- ===== src/LogVisualizer/Ticks.antt =====
-- The ticks above the chart.
use colt_core.Base.{
  ℕ, ◌+◌, ◌-◌, ◌*◌, ◌/◌, ◌%◌, ◌≡◌, Bool, List, [], ◌∷◌, pos, sub_ℕ, ltb, if◌then◌else◌,
}
use colt_core.LogVisualizer.Draw.{Tick, label_of, text_length}

-- The tick stands half a pixel before the column `j`, over which it writes the second in which that
-- column's time ends, which is divisible by four.
pub record IsMarked (now : ℕ) (t : Tick) : Type 0 where
  pub column : ℕ
  pub stands : t.line ≡ pos (69 + 26 * column)
  pub writes : t.label ≡ pos ((now / 1000 - column) % 60)
  pub divides : (now / 1000 - column) % 4 ≡ 0

-- One round of the loop, with what the later ones draw.
abbrev round : ℕ → ℕ → Bool → ℕ → List Tick → List Tick
round now width skips j rest =
    let label = label_of now j 0 in
    let tick : Tick = record {
      line = sub_ℕ (69 + 26 * j) 0;
      label = label;
      left = sub_ℕ (69 + 26 * j) (0 + 6 * text_length label);
    } in
    if ltb (129 + 26 * j) (2 * width + 0) then (if skips then rest else tick ∷ rest) else []
