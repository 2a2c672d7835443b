-- ===== src/Tipsy/Gravity.antt =====
-- The automatic gravity of jquery.tipsy.js: on which side of its element a tip stands.
use colt_core.Base.{
  ℕ, ◌+◌, ◌*◌, ◌≤◌, ◌≡◌, Bool, Option, none, some, Text, [], ◌∷◌, ltb, if◌then◌else◌, arith,
}

-- The element's place in the document, and what of the document the window shows. `offset` is what
-- `offset()` returns.
pub record View : Type 0 where
  pub offset_top : ℕ
  pub offset_left : ℕ
  pub scroll_top : ℕ
  pub scroll_left : ℕ
  pub width : ℕ
  pub height : ℕ

-- `dir`; a direction that is not set is false.
pub record Direction : Type 0 where
  pub ns : ℕ
  pub ew : Option ℕ

-- `autoNS` and `autoWE`. Half the window is compared doubled, since it need not be whole.
unfoldable pub auto_ns : View → ℕ
auto_ns v = if ltb (2 * v.scroll_top + v.height) (2 * v.offset_top) then b's' else b'n'

unfoldable pub auto_we : View → ℕ
auto_we v = if ltb (2 * v.scroll_left + v.width) (2 * v.offset_left) then b'e' else b'w'

-- The four tests of `autoBounds`, each by a sum where the code subtracts.
abbrev pub near_top : ℕ → View → Bool
near_top margin v = ltb v.offset_top (v.scroll_top + margin)

abbrev pub near_left : ℕ → View → Bool
near_left margin v = ltb v.offset_left (v.scroll_left + margin)

abbrev pub near_right : ℕ → View → Bool
near_right margin v = ltb (v.width + v.scroll_left) (margin + v.offset_left)

abbrev pub near_bottom : ℕ → View → Bool
near_bottom margin v = ltb (v.height + v.scroll_top) (margin + v.offset_top)

-- `autoBounds(margin, prefer)`, as the pair of its letters.
unfoldable pub bounds : ℕ → Direction → View → Direction
bounds margin prefer v =
    let d1 = if near_top margin v then record prefer { ns = b'n' } else prefer in
    let d2 = if near_left margin v then record d1 { ew = some b'w' } else d1 in
    let d3 = if near_right margin v then record d2 { ew = some b'e' } else d2 in
    if near_bottom margin v then record d3 { ns = b's' } else d3

unfoldable pub auto_bounds : ℕ → Direction → View → Text
unfolding bounds
auto_bounds margin prefer v =
    let d = bounds margin prefer v in elim d.ew [ none ↦ d.ns ∷ [] | some c ↦ d.ns ∷ c ∷ [] ]

-- In a window of at least twice the margin each way, at most one of two opposite tests holds: on each
-- axis the direction is that of the edge that is near, and the preferred one where neither is.
bounds_lem :
    (margin : ℕ) (prefer : Direction) (v : View)
    → 2 * margin ≤ v.width
    → 2 * margin ≤ v.height
    → ((bounds margin prefer v).ns
        ≡ (if near_top margin v then b'n' else if near_bottom margin v then b's' else prefer.ns))
      × ((bounds margin prefer v).ew ≡ (
          if near_left margin v
          then some b'w'
          else if near_right margin v
          then some b'e'
          else prefer.ew))
unfolding bounds
bounds_lem margin prefer v w h = ground arith
