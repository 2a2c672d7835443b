-- ===== src/Tipsy/Examples.antt =====
-- The theorems on tooltips at concrete inputs.
use colt_core.Base.{◌∷◌, pos, negsuc, sub_ℕ, ◌≡◌, refl, none, some, [], codes}
use colt_core.Tipsy.{
  Options, Tooltip, own_title, enters, runs_entering, happen, create, show, enter, run_entering,
  fix_title, get_title, title_of, trim_start, is_space,
}
use colt_core.Tipsy.Place.{Box, Size, Place, place, first_place}
use colt_core.Tipsy.Hovering.{Reach, fresh, later, IsTended, Reach-IsTended}

-- The delays of the log page for coming in, and one for leaving.
abbrev delayed : Options
delayed = record { delay_in = 120; delay_out = 50; fallback = []; source = own_title }

abbrev new_tooltip : Tooltip
new_tooltip = create (some (codes "Build")) none

abbrev looked_at : Tooltip
looked_at = happen delayed runs_entering (happen delayed enters new_tooltip)

abbrev looked_at_reached : Reach delayed (some (codes "Build")) none looked_at
looked_at_reached = later (later fresh enters) runs_entering

looked_at_tip : looked_at.tip ≡ some (codes "Build")
unfolding happen create run_entering enter show fix_title get_title title_of trim_start is_space
looked_at_tip = refl

Reach-IsTended_example : IsTended looked_at
Reach-IsTended_example =
    Reach-IsTended delayed (some (codes "Build")) none looked_at looked_at_reached

-- A tip above an element near the top of the page, which it leaves.
abbrev button : Box
button = record { top = 10; left = 100; width = 31; height = 20 }

abbrev small : Size
small = record { width = 60; height = 24 }

abbrev above : Place
above = record { top = negsuc 37; left = pos 171 }

button_above : place button small 5 (b's' ∷ []) ≡ some above
unfolding place first_place sub_ℕ
button_above = refl
