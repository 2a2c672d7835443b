-- ===== src/LogPage/Cutting.antt =====
-- `dotdotdot` of the log page, and its calls of trunk8.js on the paragraphs of items.
use colt_core.Base.{ℕ, Option, none, some, List, [], ◌∷◌, ◌++◌}
use colt_core.Trunk8.{Result, ok, err, Cache}
use colt_core.Trunk8.Methods.{Holder, Given, Call, options, Answer, chained, settings, trunk8}
use colt_core.LogPage.State.{
  Item, Log, Moment, Outcome, done, thrown, unfinished, ◌>>=◌, find_item, modify_item,
  update_dotdotdot,
}

-- `{ lines: 2 }`
abbrev pub two_lines : Given
two_lines = record { fill = none; lines = some 2; side = none; tooltip = none; width = none }

abbrev pub put_paragraph : Holder → Item → Item
put_paragraph h it = record it { paragraph = h }

-- What a call of trunk8.js leaves, where `put` puts the paragraph and the cache into the page.
abbrev pub settle : (Holder → Cache → Log) → Log → Option (Result Answer) → Outcome
settle put log none = unfinished
settle put log (some (err e)) = thrown log
settle put log (some (ok (settings s))) = done log
settle put log (some (ok (chained h cache))) = done (put h cache)

abbrev pub put_in_items : ℕ → Log → Holder → Cache → Log
put_in_items id log h cache = record log {
  items = modify_item id (put_paragraph h) log.items;
  cache = cache;
}

abbrev pub put_in_removed : ℕ → Log → Holder → Cache → Log
put_in_removed id log h cache = record log {
  removed = modify_item id (put_paragraph h) log.removed;
  cache = cache;
}

-- `$(item).children('p').trunk8(…)`, on an item of the list or on a removed one.
unfoldable pub trunk8_item : Moment → Call → ℕ → Log → Outcome
trunk8_item now call id log = elim (find_item id log.items) [
  | some it ↦ settle (put_in_items id log) log (trunk8 (now.browser id) call it.paragraph log.cache)
  | none ↦ elim (find_item id log.removed) [
    | none ↦ done log
    | some it ↦
        settle (put_in_removed id log) log (trunk8 (now.browser id) call it.paragraph log.cache)
  ]
]

-- The same on the paragraphs of some items, in order.
unfoldable pub trunk8_items : Moment → Call → List ℕ → Log → Outcome
trunk8_items now call [] log = done log
trunk8_items now call (id ∷ ids) log = trunk8_item now call id log >>= trunk8_items now call ids

-- `forUpdateDot.push($item)`
abbrev pub push : List ℕ → Log → Log
push ids log = record log { queue = log.queue ++ ids ∷ [] }

-- `dotdotdot`, on a jQuery object with the items `ids`.
unfoldable pub dotdotdot : Moment → List ℕ → Log → Outcome
dotdotdot now ids log =
    trunk8_items now (options two_lines) ids log >>= λ cut. done (update_dotdotdot (push ids cut))
