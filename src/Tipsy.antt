-- ===== src/Tipsy.antt =====
-- jquery.tipsy.js, the tooltips of the log page: the title of an element, the hover state with its
-- timers, and the side on which a tip stands. The fading of a tip is left out.
pub mod Hovering
pub mod Titles
pub mod Gravity
pub mod Place
pub mod Elements
pub mod Examples
use colt_core.Base.{
  ℕ, zero, suc, ◌+◌, Bool, true, false, ◌&&◌, ◌||◌, not, Option, none, some, List, [], ◌∷◌, Text,
  codes, ◌==◌, leb, ltb, if◌then◌else◌,
}

-- The option `title`: an attribute of the element, or what a function returns.
pub data Source : Type 0 where
  own_title : Source
  attribute : Option Text → Source
  computed : Text → Source

pub record Options : Type 0 where
  pub delay_in : ℕ
  pub delay_out : ℕ
  pub fallback : Text
  pub source : Source

pub data Hover : Type 0 where
  inside outside : Hover

-- A `Tipsy` with its element. `tip` is the text that stands in the document's tip; `entering` and
-- `leaving` count the timers that `enter` and `leave` have set and that have not run.
pub record Tooltip : Type 0 where
  pub title : Option Text
  pub original_title : Option Text
  pub enabled : Bool
  pub hover : Option Hover
  pub tip : Option Text
  pub entering : ℕ
  pub leaving : ℕ

-- The truth of an attribute: it is there and not empty.
abbrev pub is_filled : Option Text → Bool
is_filled none = false
is_filled (some []) = false
is_filled (some (c ∷ t)) = true

-- `attribute || ''`
abbrev pub or_empty : Option Text → Text
or_empty none = []
or_empty (some t) = t

abbrev pub is_defined : Option Text → Bool
is_defined none = false
is_defined (some t) = true

-- `fixTitle`
unfoldable pub fix_title : Tooltip → Tooltip
fix_title s =
    if is_filled s.title || not (is_defined s.original_title)
    then record s { original_title = some (or_empty s.title); title = none }
    else s

-- `\s` of a regular expression.
unfoldable pub is_space : ℕ → Bool
is_space c =
    c == 32
    || leb 9 c && leb c 13
    || c == 160
    || c == 5760
    || leb 8192 c && leb c 8202
    || c == 8232
    || c == 8233
    || c == 8239
    || c == 8287
    || c == 12288
    || c == 65279

-- `replace(/(^\s*|\s*$)/, "")`: the first match is at the start, and there is no other.
unfoldable pub trim_start : Text → Text
trim_start [] = []
trim_start (c ∷ t) = let rest = trim_start t in if is_space c then rest else c ∷ t

-- `'' + title`: what is undefined is written out.
abbrev pub as_text : Option Text → Text
as_text none = codes "undefined"
as_text (some t) = t

module _ (opts : Options) where
  unfoldable pub title_of : Source → Tooltip → Text
  title_of own_title s = as_text s.original_title
  title_of (attribute a) s = as_text a
  title_of (computed t) s = t

  -- `getTitle`, once the title is fixed.
  unfoldable pub get_title : Tooltip → Text
  unfolding title_of trim_start
  get_title s = elim (trim_start (title_of opts.source s)) [ [] ↦ opts.fallback | c ∷ t ↦ c ∷ t ]

  -- `show`
  unfoldable pub show : Tooltip → Tooltip
  show s =
      let s1 = fix_title s in
      if is_filled (some (get_title s1)) && s1.enabled
      then record s1 { tip = some (get_title s1) }
      else s1

  abbrev pub hide : Tooltip → Tooltip
  hide s = record s { tip = none }

  -- `enter`: `mouseenter` or `focus`.
  unfoldable pub enter : Tooltip → Tooltip
  unfolding show fix_title
  enter s =
      let s1 = record s { hover = some inside } in
      if opts.delay_in == 0 then show s1 else record (fix_title s1) { entering = s1.entering + 1 }

  -- `leave`: `mouseleave` or `blur`.
  unfoldable pub leave : Tooltip → Tooltip
  leave s =
      let s1 = record s { hover = some outside } in
      if opts.delay_out == 0 then hide s1 else record s1 { leaving = s1.leaving + 1 }

  abbrev pub show_if_inside : Option Hover → Tooltip → Tooltip
  show_if_inside none s = s
  show_if_inside (some inside) s = show s
  show_if_inside (some outside) s = s

  abbrev pub hide_if_outside : Option Hover → Tooltip → Tooltip
  hide_if_outside none s = s
  hide_if_outside (some inside) s = s
  hide_if_outside (some outside) s = hide s

  -- A timer of `enter` runs, and one of `leave`. With no timer set, nothing does.
  unfoldable pub run_entering : Tooltip → Tooltip
  run_entering s = elim s.entering [
    | zero ↦ s
    | suc n ↦ show_if_inside s.hover (record s { entering = n })
  ]

  unfoldable pub run_leaving : Tooltip → Tooltip
  run_leaving s = elim s.leaving [
    | zero ↦ s
    | suc n ↦ hide_if_outside s.hover (record s { leaving = n })
  ]

-- `new Tipsy(element)`, with the attributes `title` and `original-title` of the element.
unfoldable pub create : Option Text → Option Text → Tooltip
create title original_title = fix_title (record {
  title = title;
  original_title = original_title;
  enabled = true;
  hover = none;
  tip = none;
  entering = 0;
  leaving = 0;
})

-- What can happen to a tooltip, as on the page of the log, where no script calls `show`, `hide` or
-- `validate` by name (Tipsy.Elements has these). `retitles` is a script that sets the attribute `title`.
pub data Event : Type 0 where
  enters leaves runs_entering runs_leaving enables disables toggles : Event
  retitles : Text → Event

unfoldable pub happen : Options → Event → Tooltip → Tooltip
happen opts enters s = enter opts s
happen opts leaves s = leave opts s
happen opts runs_entering s = run_entering opts s
happen opts runs_leaving s = run_leaving opts s
happen opts enables s = record s { enabled = true }
happen opts disables s = record s { enabled = false }
happen opts toggles s = record s { enabled = not s.enabled }
happen opts (retitles t) s = record s { title = some t }
