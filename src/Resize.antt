-- ===== src/Resize.antt =====
-- jquery-resize.js, which tells the fileset page that its body has changed its size: the special event
-- `resize` of jQuery, with the timer that looks at the sizes. An element is known by a number.
pub mod Handlers
pub mod Polling
pub mod Examples
use colt_core.Base.{
  ℕ, zero, suc, ◌+◌, ◌-◌, Bool, true, false, ◌&&◌, ◌||◌, not, Option, none, some, List, [], ◌∷◌,
  ◌==◌, ◌++◌, if◌then◌else◌, length,
}

-- An element with the size that its data hold.
pub record Watched : Type 0 where
  pub element : ℕ
  pub w : ℕ
  pub h : ℕ

-- `elems`, how many timers of `loopy` are set, and whether the one in `timeout_id` is among them.
pub record Poll : Type 0 where
  pub elems : List Watched
  pub timers : ℕ
  pub is_live : Bool

abbrev pub start : Poll
start = record { elems = []; timers = 0; is_live = false }

-- `loopy`
abbrev pub loopy : Poll → Poll
loopy p = record p { timers = p.timers + 1; is_live = true }

unfoldable pub find_watched : ℕ → List Watched → Option Watched
find_watched e [] = none
find_watched e (x ∷ xs) = let rest = find_watched e xs in if x.element == e then some x else rest

unfoldable pub without : ℕ → List Watched → List Watched
without e [] = []
without e (x ∷ xs) = let rest = without e xs in if x.element == e then rest else x ∷ rest

unfoldable pub has : ℕ → List Watched → Bool
has e [] = false
has e (x ∷ xs) = x.element == e || has e xs

-- `$.data(this, str_data, { w: w, h: h })`
unfoldable pub record_size : ℕ → ℕ → ℕ → List Watched → List Watched
record_size e w h [] = []
record_size e w h (x ∷ xs) =
    (if x.element == e then record x { w = w; h = h } else x) ∷ record_size e w h xs

-- `teardown`: `clearTimeout` of the timer in `timeout_id` where no element is left, which does nothing
-- if that timer has run.
unfoldable pub teardown : ℕ → Poll → Poll
teardown e p =
    let elems = without e p.elems in
    if length elems == 0
    then record {
      elems = elems;
      timers = if p.is_live then p.timers - 1 else p.timers;
      is_live = false;
    }
    else record p { elems = elems }

-- What can happen: a handler is bound to an element, the handlers are taken from it, a script triggers
-- the event on it, a timer runs.
pub data Event : Type 0 where
  binds unbinds triggers : ℕ → Event
  ticks : Event

-- What a handler does to the event: it binds a handler to an element, or takes the handlers from it.
pub data Reaction : Type 0 where
  binds_to unbinds_from : ℕ → Reaction

-- How a round of `elems.each` ends; on an element whose data are gone it throws.
pub data Round : Type 0 where
  finished broken : Poll → Round

module _ (width height : ℕ → ℕ) where
  -- `new_handler`, which `add` puts around a handler: the size that the event carries, or the element's
  -- own where a script triggers the event with no size, goes into the element's data.
  unfoldable pub new_handler : ℕ → Option (ℕ × ℕ) → Poll → Poll
  new_handler e none p = record p { elems = record_size e (width e) (height e) p.elems }
  new_handler e (some (w, h)) p = record p { elems = record_size e w h p.elems }

-- What follows a round: the next timer, unless it has thrown.
abbrev pub go_on : Round → Poll
go_on (finished p) = loopy p
go_on (broken p) = p

-- `width()` and `height()` of the elements at the time of a call, and what the handlers of an element do.
module _ (width height : ℕ → ℕ) (reactions : ℕ → List Reaction) where
  -- The guard of the three hooks lets the event through unless throttling is off and the object is a
  -- window. jQuery calls `setup` for an element that has no handler of the event yet; `elems.add` adds
  -- no element twice.
  unfoldable pub setup : ℕ → Poll → Poll
  setup e p =
      let elems =
        if has e p.elems
        then record_size e (width e) (height e) p.elems
        else p.elems ++ record { element = e; w = width e; h = height e } ∷ [] in
      let added = record p { elems = elems } in if length elems == 1 then loopy added else added

  -- jQuery calls `setup` for the first handler of an element, and `teardown` after the last.
  unfoldable pub bind : ℕ → Poll → Poll
  bind e p = if has e p.elems then p else setup e p

  unfoldable pub react : List Reaction → Poll → Poll
  react [] p = p
  react (binds_to e ∷ rs) p = react rs (bind e p)
  react (unbinds_from e ∷ rs) p = react rs (if has e p.elems then teardown e p else p)

  unfoldable pub changed : Watched → Bool
  changed x = not (width x.element == x.w) || not (height x.element == x.h)

  -- One element of a round, with its data as they are then.
  unfoldable pub visit : ℕ → Poll → Round
  visit e p = elim (find_watched e p.elems) [
    | none ↦ broken p
    | some x ↦ finished (
        if changed x
        then react (reactions e) (record p { elems = record_size e (width e) (height e) p.elems })
        else p)
  ]

  -- `elems.each`, on the elements that are watched as the round begins.
  unfoldable pub each : List Watched → Poll → Round
  each [] p = finished p
  each (x ∷ xs) p = elim (visit x.element p) [ finished p' ↦ each xs p' | broken p' ↦ broken p' ]

  -- A timer of `loopy` runs, the one that was set first: the round, and the next timer.
  unfoldable pub tick : Poll → Poll
  tick p = elim p.timers [
    | zero ↦ p
    | suc n ↦ go_on (each p.elems (record p { timers = n; is_live = not (n == 0) && p.is_live }))
  ]

  unfoldable pub happen : Event → Poll → Poll
  happen (binds e) p = bind e p
  happen (unbinds e) p = if has e p.elems then teardown e p else p
  happen (triggers e) p =
      if has e p.elems then react (reactions e) (new_handler width height e none p) else p
  happen ticks p = tick p
