-- ===== src/Trunk8/LineHeight.antt =====
-- `getLineHeight` of trunk8.js: the element is changed, measured and put back.
use colt_core.Base.{ℕ, ◌≡◌, Bool, true, false, not, Text, codes, text_eq, if◌then◌else◌, arith}

-- An element with what the function changes: its computed `float` and `position`, its content, and
-- whether it stands in the wrapper.
pub record Styled : Type 0 where
  pub float : Text
  pub position : Text
  pub html : Text
  pub is_wrapped : Bool

-- `measure` is the `innerHeight()` of the wrapper around the element.
module _ (measure : Styled → ℕ) where
  -- The element as it is measured: not floating, in the flow, with one small character.
  unfoldable pub ready : Styled → Styled
  ready el =
      let el1 =
        if not (text_eq el.float (codes "none")) then record el { float = codes "none" } else el in
      let el2 =
        if text_eq el1.position (codes "absolute")
        then record el1 { position = codes "static" }
        else el1 in
      record el2 { html = codes "i"; is_wrapped = true }

  unfoldable pub get_line_height : Styled → ℕ × Styled
  get_line_height el =
      let changed = ready el in
      (
        measure changed,
        record changed {
          html = el.html;
          float = el.float;
          position = el.position;
          is_wrapped = false;
        },
      )

  -- The element is as it was.
  get_line_height_kept : (el : Styled) → el.is_wrapped ≡ false → (get_line_height el).1 ≡ el
  unfolding get_line_height ready
  get_line_height_kept el h = ground arith
