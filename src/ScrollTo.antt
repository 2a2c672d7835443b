-- ===== src/ScrollTo.antt =====
-- jquery.scroll-to.js, which the log page loads to scroll to a message: `$.fn.scrollTo`.
use colt_core.Base.{
  ℕ, ◌+◌, ◌≡◌, refl, Option, none, some, List, [], ◌∷◌, map, Text, codes, ℤ, pos, sub_ℕ,
}

-- A target: a place in the pane, or an element, which is known by a number.
pub data Target : Type 0 where
  place : ℕ → Target
  element : ℕ → Target

-- The options that a caller gives; `none` leaves a default.
pub record Given : Type 0 where
  pub scroll_target : Option Target
  pub offset_top : Option ℕ
  pub duration : Option ℕ
  pub easing : Option Text

-- An argument of the call: a target, options, a function, which is known by a number, or nothing.
pub data Argument : Type 0 where
  target : Target → Argument
  options : Given → Argument
  function : ℕ → Argument
  undefined : Argument

pub record Settings : Type 0 where
  pub scroll_target : Argument
  pub offset_top : ℕ
  pub duration : ℕ
  pub easing : Text

-- A call of `animate`: the pane, the new `scrollTop`, the time and its course, and what runs at its end.
pub record Animation : Type 0 where
  pub pane : ℕ
  pub scroll_top : ℤ
  pub duration : ℕ
  pub easing : Text
  pub callback : Option ℕ

abbrev or_else {ℓ} : {A : Type ℓ} → Option A → A → A
or_else none a = a
or_else (some b) a = b

-- The arguments `target`, `options` and `callback`: of two arguments, a function in the second place is
-- the callback, and the first is the options, and still the target.
unfoldable pub arguments : List Argument → Argument × Argument × Argument
arguments [] = (undefined, undefined, undefined)
arguments (a ∷ []) = (a, undefined, undefined)
arguments (a ∷ function f ∷ []) = (a, a, function f)
arguments (a ∷ b ∷ []) = (a, b, undefined)
arguments (a ∷ b ∷ c ∷ rest) = (a, b, c)

-- `$.extend` of the defaults by the options; what is no options object has no option to give.
unfoldable pub settings : Argument → Argument → Settings
settings given_target (options g) = record {
  scroll_target = elim g.scroll_target [ none ↦ given_target | some t ↦ target t ];
  offset_top = or_else g.offset_top 50;
  duration = or_else g.duration 500;
  easing = or_else g.easing (codes "swing");
}
settings given_target other = record {
  scroll_target = given_target;
  offset_top = 50;
  duration = 500;
  easing = codes "swing";
}

-- `offset().top` of an element and `scrollTop()` of a pane.
module _ (offset_top scroll_top : ℕ → ℕ) where
  -- `scrollY` of a pane. What is neither a number nor an element has no offset, and reading its `top`
  -- throws.
  unfoldable pub scroll_y : Settings → ℕ → Option ℤ
  scroll_y s pane = elim s.scroll_target [
    | target t ↦ elim t [
      | place n ↦ some (pos n)
      | element e ↦ some (sub_ℕ (offset_top e + scroll_top pane) s.offset_top)
    ]
    | options g ↦ none
    | function f ↦ none
    | undefined ↦ none
  ]

  abbrev animation : Settings → Option ℕ → ℕ → ℤ → Animation
  animation s callback pane y = record {
    pane = pane;
    scroll_top = y;
    duration = s.duration;
    easing = s.easing;
    callback = callback;
  }

  -- The animation of one pane, before those of the panes after it.
  abbrev starting :
      Settings → Option ℕ → ℕ → Option ℤ → Option (List Animation) → Option (List Animation)
  starting s callback pane (some y) (some others) = some (animation s callback pane y ∷ others)
  starting s callback pane (some y) none = none
  starting s callback pane none others = none

  -- The loop over the panes.
  unfoldable pub animate_all : Settings → Option ℕ → List ℕ → Option (List Animation)
  animate_all s callback [] = some []
  animate_all s callback (pane ∷ panes) =
      starting s callback pane (scroll_y s pane) (animate_all s callback panes)

  -- `$.fn.scrollTo`: the animations that start, or an exception.
  unfoldable pub scroll_to : List ℕ → List Argument → Option (List Animation)
  scroll_to panes args =
      let (given_target, given_options, callback) = arguments args in
      animate_all (settings given_target given_options)
        (elim callback [
          | function f ↦ some f
          | target t ↦ none
          | options g ↦ none
          | undefined ↦ none
        ])
        panes

  -- The animation of a pane to an element, with the options that are given or their defaults.
  abbrev to_element : ℕ → Given → Option ℕ → ℕ → Animation
  to_element e g callback pane = record {
    pane = pane;
    scroll_top = sub_ℕ (offset_top e + scroll_top pane) (or_else g.offset_top 50);
    duration = or_else g.duration 500;
    easing = or_else g.easing (codes "swing");
    callback = callback;
  }

  scroll_y-element :
      (e : ℕ) (s : Settings) (pane : ℕ)
      → s.scroll_target ≡ target (element e)
      → scroll_y s pane ≡ some (sub_ℕ (offset_top e + scroll_top pane) s.offset_top)
  unfolding scroll_y
  scroll_y-element e s pane h = rw h refl

  animate_all-element :
      (e : ℕ) (s : Settings) (callback : Option ℕ) (panes : List ℕ)
      → s.scroll_target ≡ target (element e)
      → animate_all s callback panes
        ≡ some (
            map
              (λ pane.
                animation s callback pane (sub_ℕ (offset_top e + scroll_top pane) s.offset_top))
              panes)
  unfolding animate_all
  animate_all-element e s callback [] h = refl
  animate_all-element e s callback (pane ∷ panes) h =
      rw (animate_all-element e s callback panes h, scroll_y-element e s pane h) refl

  -- If the options name an element as the target, a call with the options and a callback alone, and one
  -- with any target before them, start the same: one animation of each pane, in order, to the element's
  -- place in the pane less the offset.
  scroll_to-arguments :
      (e f : ℕ) (g : Given) (a : Argument) (panes : List ℕ)
      → g.scroll_target ≡ some (element e)
      → (scroll_to panes (options g ∷ function f ∷ []) ≡ some (map (to_element e g (some f)) panes))
        × (scroll_to panes (a ∷ options g ∷ function f ∷ [])
            ≡ some (map (to_element e g (some f)) panes))
  unfolding scroll_to arguments settings
  scroll_to-arguments e f g a panes h = (
    animate_all-element e (settings (options g) (options g)) (some f) panes (named (options g)),
    animate_all-element e (settings a (options g)) (some f) panes (named a),
  )
    where
      named : (a : Argument) → (settings a (options g)).scroll_target ≡ target (element e)
      named a = rw h refl
