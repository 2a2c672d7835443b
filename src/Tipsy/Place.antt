-- ===== src/Tipsy/Place.antt =====
-- Where `show` of jquery.tipsy.js puts a tip. Lengths are in half pixels here, since the code halves
-- widths and heights that may be odd.
use colt_core.Base.{ℕ, ◌+◌, ◌*◌, Option, none, some, [], ◌∷◌, Text, ◌==◌, if◌then◌else◌, ℤ, sub_ℕ}

-- The element, in pixels: its `offset()` and its size.
pub record Box : Type 0 where
  pub top : ℕ
  pub left : ℕ
  pub width : ℕ
  pub height : ℕ

-- The size of the tip, in pixels.
pub record Size : Type 0 where
  pub width : ℕ
  pub height : ℕ

-- `tp`, in half pixels.
pub record Place : Type 0 where
  pub top : ℤ
  pub left : ℤ

module _ (e : Box) (tip : Size) (offset : ℕ) where
  -- The middle of the element, less half of the tip, on each axis.
  abbrev pub centred_left : ℤ
  centred_left = sub_ℕ (2 * e.left + e.width) tip.width

  abbrev pub centred_top : ℤ
  centred_top = sub_ℕ (2 * e.top + e.height) tip.height

  -- The `switch` on the first letter of the gravity; another letter leaves `tp` undefined.
  unfoldable pub first_place : ℕ → Option Place
  first_place c =
      if c == b'n'
      then some (record { top = sub_ℕ (2 * (e.top + e.height + offset)) 0; left = centred_left })
      else if c == b's'
      then some
          (record { top = sub_ℕ (2 * e.top) (2 * (tip.height + offset)); left = centred_left })
      else if c == b'e'
      then some (record { top = centred_top; left = sub_ℕ (2 * e.left) (2 * (tip.width + offset)) })
      else if c == b'w'
      then some (record { top = centred_top; left = sub_ℕ (2 * (e.left + e.width + offset)) 0 })
      else none

  -- The second letter of a gravity that has two: the arrow is 15 pixels from the tip's end.
  shifted : ℕ → Place → Place
  shifted d p =
      if d == b'w'
      then record p { left = sub_ℕ (2 * e.left + e.width) 30 }
      else record p { left = sub_ℕ (2 * e.left + e.width + 30) (2 * tip.width) }

  unfoldable pub place : Text → Option Place
  unfolding shifted
  place [] = none
  place (c ∷ []) = first_place c
  place (c ∷ d ∷ []) = elim (first_place c) [ none ↦ none | some p ↦ some (shifted d p) ]
  place (c ∷ d ∷ f ∷ g) = first_place c
