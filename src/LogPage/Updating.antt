-- ===== src/LogPage/Updating.antt =====
-- The interval of `updateDotdotdot` of the log page, and `applicationResize`.
use colt_core.Base.{
  ℕ, Bool, false, ◌&&◌, ◌||◌, not, none, some, List, [], ◌∷◌, ◌++◌, map, codes, ltb, if◌then◌else◌,
  length,
}
use colt_core.Trunk8.Methods.{named}
use colt_core.LogPage.State.{Item, Log, Moment, Outcome, done, ◌>>=◌, find_item, update_dotdotdot}
use colt_core.LogPage.Cutting.{trunk8_items}
use colt_core.LogPage.Selecting.{is_in_scroll}

-- `_isElementInScroll` on an element of the queue; a jQuery object of another size is never in view.
unfoldable pub element_in_scroll : Moment → ℕ → List ℕ → Bool
element_in_scroll now scroll_top (id ∷ []) = is_in_scroll now scroll_top id
element_in_scroll now scroll_top [] = false
element_in_scroll now scroll_top (id ∷ id2 ∷ ids) = false

-- `hasClass('selected')` and `hasClass('visible')`: of one of the elements.
unfoldable pub any_item : (Item → Bool) → List Item → List ℕ → Bool
any_item p its [] = false
any_item p its (id ∷ ids) =
    elim (find_item id its) [ none ↦ false | some it ↦ p it ] || any_item p its ids

abbrev pub wants_update : List Item → List ℕ → Bool
wants_update its ids =
    not (any_item (λ it. it.is_selected) its ids) && any_item (λ it. it.is_visible) its ids

-- The `$.each` of the interval: `needUpdate` and `nextUpdate`. The test `!this.parent` is of a function,
-- so it never holds.
unfoldable pub split_queue : Moment → ℕ → List Item → List (List ℕ) → List (List ℕ) × List (List ℕ)
split_queue now scroll_top its [] = ([], [])
split_queue now scroll_top its (ids ∷ queue) =
    let rest = split_queue now scroll_top its queue in
    if element_in_scroll now scroll_top ids
    then (if wants_update its ids then ids ∷ rest.0 else rest.0, rest.1)
    else (rest.0, ids ∷ rest.1)

-- The `while`: elements of `nextUpdate` are moved over while there are fewer than 50.
unfoldable pub fill_up : List (List ℕ) → List (List ℕ) → List (List ℕ) × List (List ℕ)
fill_up need [] = (need, [])
fill_up need (ids ∷ next) =
    let rest = fill_up (need ++ ids ∷ []) next in
    if ltb (length need) 50 then rest else (need, ids ∷ next)

unfoldable pub update_each : Moment → List (List ℕ) → Log → Outcome
update_each now [] log = done log
update_each now (ids ∷ need) log =
    trunk8_items now (named (codes "update") none) ids log >>= update_each now need

-- The interval runs, once.
unfoldable pub run_update : Moment → Log → Outcome
run_update now log =
    if log.update_waits
    then (let parts = split_queue now log.scroll_top (log.items ++ log.removed) log.queue in
        let filled = fill_up parts.0 parts.1 in
        update_each now filled.0 (record log { update_waits = false; queue = filled.1 }))
    else done log

-- `applicationResize`
unfoldable pub application_resize : Log → Log
application_resize log =
    update_dotdotdot (record log { queue = map (λ (it : Item). it.id ∷ []) log.items })

-- The `scroll` event of the document.
unfoldable pub scroll : ℕ → Log → Log
scroll top log = update_dotdotdot (record log { scroll_top = top })
