-- ===== src/Tipsy/Hovering.antt =====
-- The hover state and its timers: when a tip is on the screen.
use colt_core.Base.{◌≡◌, ◌<◌, ◌⊎◌, inl, inr, none, some, Option, Text, arith}
use colt_core.Tipsy.{
  Options, Tooltip, inside, outside, Event, enters, leaves, runs_entering, runs_leaving, enables,
  disables, toggles, retitles, happen, create, show, enter, leave, run_entering, run_leaving,
  fix_title,
}

-- The states that events lead to, from a new tooltip on.
pub data Reach (opts : Options) (title original : Option Text) : Tooltip → Type 0 where
  fresh : Reach opts title original (create title original)
  later :
      {s : Tooltip}
      → Reach opts title original s
      → (e : Event) → Reach opts title original (happen opts e s)

-- No tip, or the pointer is inside, or it is outside and a timer is to take the tip away.
abbrev pub IsTended : Tooltip → Type 0
IsTended s =
    (s.tip ≡ none) ⊎ ((s.hover ≡ some inside) ⊎ ((s.hover ≡ some outside) × (0 < s.leaving)))

module _ (opts : Options) where
  enter-IsTended : (s : Tooltip) → IsTended (enter opts s)
  enter-IsTended s = unfold enter show fix_title in inr (inl (ground arith))

  leave-IsTended : (s : Tooltip) → IsTended (leave opts s)
  leave-IsTended s = unfold leave in ground arith

  run_entering-IsTended : (s : Tooltip) → IsTended s → IsTended (run_entering opts s)
  run_entering-IsTended s t = unfold run_entering show fix_title in ground arith

  run_leaving-IsTended : (s : Tooltip) → IsTended s → IsTended (run_leaving opts s)
  run_leaving-IsTended s t = unfold run_leaving in ground arith

  happen-IsTended : (e : Event) (s : Tooltip) → IsTended s → IsTended (happen opts e s)
  unfolding happen
  happen-IsTended enters s t = enter-IsTended s
  happen-IsTended leaves s t = leave-IsTended s
  happen-IsTended runs_entering s t = run_entering-IsTended s t
  happen-IsTended runs_leaving s t = run_leaving-IsTended s t
  happen-IsTended enables s t = t
  happen-IsTended disables s t = t
  happen-IsTended toggles s t = t
  happen-IsTended (retitles x) s t = t

  -- Whatever the pointer, the timers, `enable`, `disable`, `toggleEnabled` and changes of the title have done
  -- since the tooltip was made, and where `show` and `hide` are not called by name: where a tip stands on the screen, the pointer
  -- is inside, or it is outside and a timer of `leave` is still to run.
  pub Reach-IsTended :
      (title original : Option Text) (s : Tooltip) → Reach opts title original s → IsTended s
  Reach-IsTended title original s fresh = unfold create fix_title in ground arith
  Reach-IsTended title original s (later {s = r} h e) =
      happen-IsTended e r (Reach-IsTended title original r h)
