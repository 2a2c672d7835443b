-- ===== src/Trunk8/Methods.antt =====
-- `$.fn.trunk8` on one element: the methods by name, with the settings of the element.
pub mod Total
use colt_core.Base.{ℕ, Bool, Option, none, some, [], Text, codes, text_eq, if◌then◌else◌}
use colt_core.Trunk8.{Browser, Side, Result, ok, err, Cache, unknown_method, no_data}
use colt_core.Trunk8.Truncate.{Width, Settings, defaults, Element, init, update, revert}

-- The options that a caller gives; `none` leaves a setting.
pub record Given : Type 0 where
  pub fill : Option Text
  pub lines : Option ℕ
  pub side : Option Side
  pub tooltip : Option Bool
  pub width : Option Width

abbrev pub or_else {ℓ} : {A : Type ℓ} → Option A → A → A
or_else none a = a
or_else (some b) a = b

-- `updateSettings`
unfoldable pub update_settings : Given → Settings → Settings
update_settings g s = record {
  fill = or_else g.fill s.fill;
  lines = or_else g.lines s.lines;
  side = or_else g.side s.side;
  tooltip = or_else g.tooltip s.tooltip;
  width = or_else g.width s.width;
}

-- The arguments of `$.fn.trunk8`: a name with a text or none, or options.
pub data Call : Type 0 where
  named : Text → Option Text → Call
  options : Given → Call

abbrev pub nothing_given : Given
nothing_given = record { fill = none; lines = none; side = none; tooltip = none; width = none }

-- An element of the page, with its `trunk8` object if it has one.
pub record Holder : Type 0 where
  pub html : Text
  pub title : Option Text
  pub element : Option Element

-- `getSettings`
unfoldable pub get_settings : Holder → Result Settings
get_settings h = elim h.element [ none ↦ err no_data | some el ↦ ok el.settings ]

abbrev holding : Element → Holder
holding el = record { html = el.html; title = el.title; element = some el }

-- What a call returns: the element, for the next call of a chain, or its settings.
pub data Answer : Type 0 where
  chained : Holder → Cache → Answer
  settings : Settings → Answer

abbrev settle : Option (Result (Element × Cache)) → Option (Result Answer)
settle none = none
settle (some (err e)) = some (err e)
settle (some (ok (el, cache))) = some (ok (chained (holding el) cache))

abbrev answer : Result Settings → Result Answer
answer (ok s) = ok (settings s)
answer (err e) = err e

module _ (browser : Browser) where
  -- `init`, on the settings that the element has or on the defaults.
  unfoldable pub call_init : Given → Holder → Cache → Option (Result Answer)
  call_init g h cache =
      let old : Settings = elim h.element [ none ↦ defaults | some el ↦ el.settings ] in
      settle (init browser h.html h.title h.element (update_settings g old) cache)

  -- `methods.update`, which does nothing to an element that has no data.
  unfoldable pub call_update : Option Text → Holder → Cache → Option (Result Answer)
  call_update arg h cache = elim h.element [
    | none ↦ some (ok (chained h cache))
    | some el ↦ settle (update browser arg el cache)
  ]

  -- `methods.revert`
  unfoldable pub call_revert : Holder → Cache → Option (Result Answer)
  call_revert h cache = elim h.element [
    | none ↦ some (err no_data)
    | some el ↦ some (ok (chained (holding (revert el)) cache))
  ]

  -- A method by name. The names that every object inherits, such as `toString`, are left out: the script
  -- would call what they name.
  unfoldable pub call_named : Text → Option Text → Holder → Cache → Option (Result Answer)
  call_named name arg h cache =
      if text_eq name (codes "init")
      then call_init nothing_given h cache
      else if text_eq name (codes "update")
      then call_update arg h cache
      else if text_eq name (codes "revert")
      then call_revert h cache
      else if text_eq name (codes "getSettings")
      then some (answer (get_settings h))
      else if text_eq name []
      then call_init nothing_given h cache
      else some (err unknown_method)

  unfoldable pub trunk8 : Call → Holder → Cache → Option (Result Answer)
  trunk8 (named name arg) h cache = call_named name arg h cache
  trunk8 (options g) h cache = call_init g h cache
