-- ===== src/LogPage/Selecting.antt =====
-- `selectLogElement` of the log page, with the click on a message and the keys that call it.
use colt_core.Base.{
  ℕ, ◌+◌, Bool, true, false, ◌&&◌, ◌||◌, Option, none, some, List, [], ◌∷◌, ◌++◌, map, codes, ◌==◌,
  leb, if◌then◌else◌,
}
use colt_core.Trunk8.Methods.{named}
use colt_core.ScrollTo.{Given, element, target, options, scroll_to}
use colt_core.LogPage.State.{
  Item, Log, Moment, Outcome, done, thrown, ◌>>=◌, find_item, change, selected,
}
use colt_core.LogPage.Cutting.{trunk8_item, dotdotdot}

abbrev pub mark : Bool → Item → Item
mark b it = record it { is_selected = b }

-- `$(selected).removeClass('selected')`
abbrev pub unselect_all : List Item → List Item
unselect_all its = map (mark false) its

-- `selectLogElement` on an item of the list.
unfoldable pub select_log_element : Moment → Item → Log → Outcome
select_log_element now it log =
    if it.is_selected
    then dotdotdot now (it.id ∷ []) (change it.id (mark false) log)
    else (let cleared = record log { items = unselect_all log.items } in
        trunk8_item now (named (codes "revert") none) it.id (change it.id (mark true) cleared)
        >>= dotdotdot now (selected log.items))

-- The click on the text of an item, unless the user has selected text.
unfoldable pub click : Moment → Bool → ℕ → Log → Outcome
click now selects_text id log =
    if selects_text
    then done log
    else elim (find_item id log.items) [ none ↦ done log | some it ↦ select_log_element now it log ]

-- `_isElementInScroll` for one element: its top and its bottom are in the window.
unfoldable pub is_in_scroll : Moment → ℕ → ℕ → Bool
is_in_scroll now scroll_top id = elim (now.place id) [
  | none ↦ false
  | some (top, height) ↦ leb (top + height) (scroll_top + now.window_height) && leb scroll_top top
]

-- `isElementInScroll` as a filter of the items.
unfoldable pub in_scroll : Moment → ℕ → List Item → List Item
in_scroll now scroll_top [] = []
in_scroll now scroll_top (it ∷ its) =
    let rest = in_scroll now scroll_top its in
    if is_in_scroll now scroll_top it.id then it ∷ rest else rest

abbrev pub first_item : List Item → Option Item
first_item [] = none
first_item (it ∷ its) = some it

unfoldable pub last_item : List Item → Option Item
last_item [] = none
last_item (it ∷ its) = let rest = last_item its in elim rest [ none ↦ some it | some l ↦ some l ]

-- `$(selected).prev()` and `$(selected).next()`, for the first selected item: there is at most one. The
-- outer `none` says that nothing is selected, the inner one that there is no sibling.
unfoldable pub previous : Option Item → List Item → Option (Option Item)
previous before [] = none
previous before (it ∷ its) =
    let rest = previous (some it) its in if it.is_selected then some before else rest

unfoldable pub next : List Item → Option (Option Item)
next [] = none
next (it ∷ its) = let rest = next its in if it.is_selected then some (first_item its) else rest

-- `newSelection` of the keys up and down.
unfoldable pub new_selection : Moment → Bool → Log → Option Item
new_selection now up log =
    let shown = in_scroll now log.scroll_top log.items in
    if up
    then elim (previous none log.items) [ some it ↦ it | none ↦ first_item shown ]
    else elim (next log.items) [ some it ↦ it | none ↦ last_item shown ]

-- `{duration: 50}`
abbrev pub fast : Given
fast = record { scroll_target = none; offset_top = none; duration = some 50; easing = none }

-- `$(window).scrollTo(newSelection, {duration: 50})`, where the window is the pane 0.
unfoldable pub scroll_into_view : Moment → ℕ → Log → Outcome
scroll_into_view now id log =
    elim (scroll_to now.offset_top (λ pane. log.scroll_top) (0 ∷ [])
      (target (element id) ∷ options fast ∷ [])) [
        | none ↦ thrown log
        | some started ↦ done (record log { animations = log.animations ++ started })
      ]

-- `keydown` with the key up (38) or down (40).
unfoldable pub key_down : Moment → ℕ → Log → Outcome
key_down now key_code log =
    if key_code == 38 || key_code == 40
    then elim (new_selection now (key_code == 38) log) [
      | none ↦ done log
      | some it ↦ select_log_element now it log >>= scroll_into_view now it.id
    ]
    else done log
