-- ===== src/Trunk8/Truncate.antt =====
-- `truncate` of trunk8.js and the public methods over it, for elements whose settings leave `parseHTML`
-- off, as the log page does.
pub mod Search
pub mod Fits
pub mod Total
use colt_core.Base.{
  ℕ, zero, suc, ◌+◌, ◌-◌, ◌*◌, ◌/◌, Bool, true, false, Option, none, some, List, [], ◌∷◌, Text,
  codes, ◌==◌, ltb, leb, text_eq, if◌then◌else◌, length,
}
use colt_core.Trunk8.{
  Browser, Side, right, Error, Result, ok, err, ◌>>=◌, Cache, eat_str, invalid_source,
  invalid_bite_size, invalid_width,
}

-- The setting `width`: `'auto'`, a number, or another word.
pub data Width : Type 0 where
  auto : Width
  chars : ℕ → Width
  word : Text → Width

pub record Settings : Type 0 where
  pub fill : Text
  pub lines : ℕ
  pub side : Side
  pub tooltip : Bool
  pub width : Width

-- The defaults; the page sets `lines` to 2.
abbrev pub defaults : Settings
defaults = record { fill = codes "&hellip;"; lines = 1; side = right; tooltip = true; width = auto }

-- An element with its `trunk8` object.
pub record Element : Type 0 where
  pub html : Text
  pub title : Option Text
  pub original_text : Text
  pub settings : Settings

-- `(max_bite.length > bite.length) ? max_bite : bite`
abbrev pub longer : Text → Text → Text
longer max_bite bite = if ltb (length bite) (length max_bite) then max_bite else bite

-- The middle of the binary search; `past` is `upper + 1`.
abbrev pub middle : ℕ → ℕ → ℕ
middle lower past = lower + (past - 1 - lower) / 2

module _ (browser : Browser) where
  open browser use {height, line_height, text}

  abbrev pub limit : Settings → ℕ
  limit settings = line_height * settings.lines

  -- The binary search for the longest bite that fits. The first number bounds the rounds; the outer
  -- `none` is a bound that is too small.
  unfoldable pub search :
      ℕ → Settings → Text → ℕ → ℕ → Text → Cache → Option (Result (Text × Cache))
  search zero s str lower past max_bite cache =
      if ltb lower past then none else some (ok (max_bite, cache))
  search (suc rounds) s str lower past max_bite cache = elim (ltb lower past) [
    | false ↦ some (ok (max_bite, cache))
    | true ↦ elim (eat_str browser str s.side (length str - middle lower past) s.fill cache) [
      | err e ↦ some (err e)
      | ok r ↦ elim (ltb (limit s) (height r.0)) [
        | true ↦ search rounds s str lower (middle lower past) max_bite r.1
        | false ↦ search rounds s str (middle lower past + 1) past (longer max_bite r.0) r.1
      ]
    ]
  ]

  with_tooltip : Settings → Text → Element → Element
  with_tooltip s t el = if s.tooltip then record el { title = some t } else el

  -- What `truncate` does with the bite that was found.
  shown : Element → Result (Text × Cache) → Result (Element × Cache)
  unfolding with_tooltip
  shown el (err e) = err e
  shown el (ok (bite, cache)) =
      ok (with_tooltip el.settings (text el.original_text) (record el { html = bite }), cache)

  -- A width above the length makes the bite size negative, which is an error.
  cut_to_width : ℕ → Element → Cache → Result (Element × Cache)
  unfolding with_tooltip
  cut_to_width w el cache =
      let str = el.original_text in
      if ltb (length str) w
      then err (if length str == 0 then invalid_source else invalid_bite_size)
      else (eat_str browser str el.settings.side (length str - w) el.settings.fill cache >>= λ r.
          ok (with_tooltip el.settings str (record el { html = r.0 }), r.1))

  -- The three cases of `truncate`, on the element with its content reset. `'auto'` leaves a text that
  -- fits as it is.
  unfoldable pub to_fit : Element → Cache → Option (Result (Element × Cache))
  unfolding shown
  to_fit el cache =
      let str = el.original_text in
      if leb (height str) (limit el.settings)
      then some (ok (el, cache))
      else elim (search (length str) el.settings str 0 (length str) [] cache) [
        | none ↦ none
        | some r ↦ some (shown el r)
      ]

  unfoldable pub by_width : Width → Element → Cache → Option (Result (Element × Cache))
  unfolding cut_to_width
  by_width auto el cache = to_fit el cache
  by_width (chars w) el cache = some (cut_to_width w el cache)
  by_width (word t) el cache = some (err invalid_width)

  -- `truncate`
  unfoldable pub truncate : Element → Cache → Option (Result (Element × Cache))
  truncate el cache = by_width el.settings.width (record el { html = el.original_text }) cache

  -- The methods `init`, on an element that may have no `trunk8` object yet, `update` and `revert`.
  unfoldable pub init :
      Text → Option Text → Option Element → Settings → Cache → Option (Result (Element × Cache))
  init html title none options cache =
      truncate (record { html = html; title = title; original_text = html; settings = options })
        cache
  init html title (some el) options cache = truncate (record el { settings = options }) cache

  -- `update(new_string)`; an empty text is no new text.
  unfoldable pub update : Option Text → Element → Cache → Option (Result (Element × Cache))
  update new_string el cache =
      let given : Option Text = elim new_string [
        | none ↦ none
        | some t ↦ elim t [ [] ↦ none | c ∷ u ↦ some (c ∷ u) ]
      ] in
      let el' : Element = elim given [ none ↦ el | some t ↦ record el { original_text = t } ] in
      if text_eq el'.original_text el'.html then some (ok (el', cache)) else truncate el' cache

unfoldable pub revert : Element → Element
revert el = record el { html = el.original_text }
