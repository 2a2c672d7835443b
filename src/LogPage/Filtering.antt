-- ===== src/LogPage/Filtering.antt =====
-- `filter` and `updateVisible` of the log page.
use colt_core.Base.{Bool, true, false, ◌||◌, List, [], ◌∷◌, if◌then◌else◌}
use colt_core.LogPage.Messages.{Message, java, plain}
use colt_core.LogPage.State.{Item, Log, Moment, Outcome, done, thrown, ◌>>=◌, change}
use colt_core.LogPage.Cutting.{dotdotdot}
use colt_core.LogPage.Adding.{max_scroll_top}

abbrev pub show : Item → Item
show it = record it { is_hidden = false; is_visible = true }

abbrev pub hide : Item → Item
hide it = record it { is_hidden = true; is_visible = false }

-- What `updateVisible` finds to do with an item; an object of the page's own script has no `getVisible`.
pub data Change : Type 0 where
  stays shows hides fails : Change

abbrev pub change_by : Message → Bool → Bool → Change
change_by (plain message level source syntax) message_visible is_hidden = fails
change_by (java name message source) true true = shows
change_by (java name message source) true false = stays
change_by (java name message source) false true = stays
change_by (java name message source) false false = hides

unfoldable pub change_of : Moment → Item → Change
change_of now it = change_by it.message (now.message_visible it.id) it.is_hidden

-- `updateVisible` on an item of the list.
unfoldable pub update_visible : Moment → Item → Log → Outcome
update_visible now it log = elim (change_of now it) [
  | stays ↦ done log
  | shows ↦ dotdotdot now (it.id ∷ []) (change it.id show log)
  | hides ↦ done (change it.id hide log)
  | fails ↦ thrown log
]

unfoldable pub update_visible_all : Moment → List Item → Log → Outcome
update_visible_all now [] log = done log
update_visible_all now (it ∷ its) log = update_visible now it log >>= update_visible_all now its

-- What `updateVisible` returns: whether it changed something.
abbrev pub is_change : Change → Bool
is_change stays = false
is_change shows = true
is_change hides = true
is_change fails = false

unfoldable pub any_change : Moment → List Item → Bool
any_change now [] = false
any_change now (it ∷ its) = is_change (change_of now it) || any_change now its

-- `filter`
unfoldable pub filter : Log → Log
filter log = record log { filters = true }

-- The interval of `filter`, which is not cleared when it runs; the page is measured `later` once the
-- items are shown and hidden.
unfoldable pub run_filter : Moment → Moment → Log → Outcome
run_filter now later log =
    if log.filters
    then (update_visible_all now log.items log >>= λ filtered. done (
        if any_change now log.items
        then record filtered { scroll_top = max_scroll_top later }
        else filtered))
    else done log
