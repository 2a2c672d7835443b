-- ===== src/Tipsy/Titles.antt =====
-- The attribute `title`, which the browser would show itself, and its copy `original-title`.
use colt_core.Base.{◌≢◌, ◌≡◌, false, some, if◌then◌else◌, arith}
use colt_core.Tipsy.{
  Options, Tooltip, is_filled, or_empty, fix_title, enter, show, run_entering, get_title, title_of,
}

-- `fixTitle` leaves no title that the browser shows, and defines the copy; a second `fixTitle` changes
-- nothing.
pub fix_title_lem :
    (s : Tooltip)
    → (is_filled (fix_title s).title ≡ false) × (fix_title (fix_title s) ≡ fix_title s)
unfolding fix_title
fix_title_lem s = ground arith

module _ (opts : Options) where
  -- When the pointer comes in, with or without a delay, the browser has no title to show, and the copy
  -- is the title that stood there, or what the copy was before if there was no title.
  title-enter :
      (s : Tooltip)
      → (is_filled (enter opts s).title ≡ false)
        × ((enter opts s).original_title
            ≡ (if is_filled s.title then s.title else some (or_empty s.original_title)))
  unfolding enter show fix_title
  title-enter s = ground arith

  -- With a delay, once its timer has run while the pointer is inside, the tip is the one that shows at
  -- once without a delay.
  run_entering-enter :
      (s : Tooltip) → opts.delay_in ≢ 0 → (run_entering opts (enter opts s)).tip ≡ (show opts s).tip
  unfolding run_entering enter show fix_title get_title title_of
  run_entering-enter s d = ground arith
