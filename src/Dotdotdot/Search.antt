-- ===== src/Dotdotdot/Search.antt =====
-- The loop of `ellipsisElement` in dotdotdot.js: the binary search for the longest beginning of a text
-- that fits with an ellipsis, by words and then by letters.
pub mod Ends
pub mod Longest
pub mod Parts
pub mod Rule
pub mod Found
use colt_core.Base.{
  ℕ, zero, suc, ◌+◌, ◌-◌, ◌*◌, ◌/◌, Bool, true, false, ◌&&◌, ◌||◌, not, Option, none, some, List,
  [], ◌∷◌, ◌++◌, Text, ◌==◌, ltb, if◌then◌else◌, length, take,
}
use colt_core.Dotdotdot.Forest.{Forest}
use colt_core.Dotdotdot.Content.{Layout, Options, Separator, split, join, first, set_text_content}

-- The variables of the loop; `past` is `endPos + 1`, and `none` stands for -1. The node that is
-- written to is the first one of `nodes`.
pub record Search : Type 0 where
  pub separator : Separator
  pub parts : List Text
  pub position : Option ℕ
  pub mid_pos : Option ℕ
  pub start_pos : ℕ
  pub past : ℕ
  pub nodes : Forest

abbrev pub restart : Separator → List Text → Forest → Search
restart sep parts nodes = record {
  separator = sep;
  parts = parts;
  position = none;
  mid_pos = none;
  start_pos = 0;
  past = length parts;
  nodes = nodes;
}

-- The condition of the loop.
abbrev pub is_open : Search → Bool
is_open s = ltb s.start_pos s.past && not (s.start_pos == 0 && s.past == 1)

-- `Math.floor((startPos + endPos) / 2)`
abbrev pub middle : Search → ℕ
middle s = (s.start_pos + s.past - 1) / 2

-- `m == midPos`
abbrev pub is_tried : Search → Bool
is_tried s = elim s.mid_pos [ none ↦ false | some m ↦ middle s == m ]

-- `textArr.slice(0, m + 1).join(separator)`
abbrev pub beginning : Search → ℕ → Text
beginning s m = join s.separator (take (m + 1) s.parts)

-- `over` is the test of the inner element's height, where its last nodes are the given ones.
module _ (layout : Layout) (opts : Options) (over : Forest → Bool) where
  -- The text with the ellipsis is written and tested.
  unfoldable pub probe : Search → Search
  probe s =
      let m = middle s in
      let nodes = set_text_content layout opts (beginning s m ++ opts.ellipsis) s.nodes in
      if over nodes
      then record s { mid_pos = some m; past = m + 1; nodes = nodes }
      else record s { mid_pos = some m; position = some m; start_pos = m; nodes = nodes }

  -- The last statement of the loop: on to the letters of the first part.
  unfoldable pub fall_back : Search → Search
  fall_back s =
      if opts.fallback_to_letter && (s.start_pos == 0 && s.past == 1)
      then restart none (split none (first s.parts)) s.nodes
      else s

  -- The loop; `none` is a number of rounds that is too small.
  unfoldable pub search : ℕ → Search → Option Search
  search zero s = none
  search (suc n) s = elim (is_open s) [
    | false ↦ some s
    | true ↦ elim (is_tried s) [ true ↦ some s | false ↦ search n (fall_back (probe s)) ]
  ]
