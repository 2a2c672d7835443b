-- ===== src/Dotdotdot/Ellipsis/Children.antt =====
-- What `children` of dotdotdot.js keeps: the first child elements, up to one that does not fit.
use colt_core.Base.{ℕ, ◌≤◌, ◌≡◌, refl, true, false, [], arith, Text, Bool-cases, inl, inr, ap}
use colt_core.Dotdotdot.Forest.{Forest, end, text, element, rev_onto, append}
use colt_core.Dotdotdot.Content.{Layout, Options}
use colt_core.Dotdotdot.Ellipsis.{
  Outcome, kept, cut, After, child_loop, children_of, elements, over, whole,
}

abbrev IsElements : Forest → Type 0
IsElements end = Unit {0}
IsElements (text t rest) = ⊥
IsElements (element tag kids rest) = IsElements rest

elements-IsElements : (f : Forest) → IsElements (elements f)
unfolding elements
elements-IsElements end = tt
elements-IsElements (text t rest) = elements-IsElements rest
elements-IsElements (element tag kids rest) = elements-IsElements rest

module _ (layout : Layout) (opts : Options) (max_height : ℕ) (after : After) where
  -- With the child elements of the first content so far, each beginning of the second fits with `after`.
  abbrev pub AllFit : Forest → Forest → Type 0
  AllFit f end = Unit {0}
  AllFit f (text t rest) = ⊥
  AllFit f (element tag kids rest) =
      (layout.height (whole layout opts max_height after [] (element tag kids f)) ≤ max_height)
      × AllFit (element tag kids f) rest

  -- The child elements `all` are all kept, and each beginning of them fits; or the first of them are, each
  -- beginning of which fits, and the beginning that ends with the next one does not.
  abbrev pub KeepsFirst : Forest → Forest → Outcome → Type 0
  KeepsFirst all f (kept k) = (k ≡ rev_onto all f) × AllFit f all
  KeepsFirst all f (cut w) =
      (first rest kids : Forest) × (tag : Text) × (append first (element tag kids rest) ≡ all)
      × (w ≡ whole layout opts max_height after [] (rev_onto first f))
      × AllFit f first
      × (over layout opts max_height after [] (element tag kids (rev_onto first f)) ≡ true)

  under :
      (f : Forest)
      → over layout opts max_height after [] f ≡ false
      → layout.height (whole layout opts max_height after [] f) ≤ max_height
  unfolding over
  under f e = ground arith

  child_loop-KeepsFirst :
      (rest f : Forest)
      → IsElements rest
      → KeepsFirst rest f (child_loop layout opts max_height after rest f)
  unfolding child_loop rev_onto append
  child_loop-KeepsFirst end f h = (refl, tt)
  child_loop-KeepsFirst (text t rest) f h = elim h [ ]
  child_loop-KeepsFirst (element tag kids rest) f h =
      elim (Bool-cases (over layout opts max_height after [] (element tag kids f))) [
        | inl y ↦ rw y (end, rest, kids, tag, refl, refl, tt, y)
        | inr n ↦ rw n (
            skip (child_loop layout opts max_height after rest (element tag kids f))
              (under (element tag kids f) n) (child_loop-KeepsFirst rest (element tag kids f) h))
      ]
    where
      skip :
          (o : Outcome)
          → layout.height (whole layout opts max_height after [] (element tag kids f)) ≤ max_height
          → KeepsFirst rest (element tag kids f) o
          → KeepsFirst (element tag kids rest) f o
      skip (kept k) p (e, fits) = (e, (p, fits))
      skip (cut w) p (first, more, k, t, e, same, fits, high) =
          (element tag kids first, more, k, t, ap (element tag kids) e, same, (p, fits), high)

  -- `children` keeps all child elements, in order, where each beginning of them fits with the element
  -- `after`. Otherwise it shows the child elements before the first one with which the beginning does not
  -- fit, and `after`: that fits too, unless none of them is left. Texts between the child elements are lost.
  pub children_of-KeepsFirst :
      (f : Forest) → KeepsFirst (elements f) end (children_of layout opts max_height after f)
  unfolding children_of
  children_of-KeepsFirst f = child_loop-KeepsFirst (elements f) end (elements-IsElements f)
