-- ===== src/Dotdotdot/Ellipsis.antt =====
-- `ellipsis`, `ellipsisElement` and `children` of dotdotdot.js.
pub mod Total
pub mod Fits
pub mod Limits
pub mod Children
use colt_core.Base.{
  ℕ, zero, suc, ◌+◌, ◌*◌, Bool, true, false, ◌&&◌, not, Option, none, some, List, [], ◌∷◌, ◌++◌,
  Text, ◌==◌, ltb, if◌then◌else◌, length,
}
use colt_core.Dotdotdot.Forest.{
  Forest, end, text, element, Frame, reverse, append, close_all, rev_onto,
}
use colt_core.Dotdotdot.Content.{
  Layout, Options, split, separator, first, add_ellipsis, get_text_content, set_text_content,
}
use colt_core.Dotdotdot.Search.{Search, restart, beginning, search}

-- What an element is left with: its content so far, backwards, with nothing cut; or the content of the
-- inner element, cut and ended with an ellipsis.
pub data Outcome : Type 0 where
  kept : Forest → Outcome
  cut : Forest → Outcome

-- Nothing is cut, and the code goes on.
abbrev pub and_then : Option Outcome → (Forest → Option Outcome) → Option Outcome
and_then none k = none
and_then (some (kept f)) k = k f
and_then (some (cut w)) k = some (cut w)

-- The element `after`, if there is one: its tag and its content.
abbrev pub After : Type 0
After = Option (Text × Forest)

abbrev pub put_after : After → Forest → Forest
put_after none f = f
put_after (some (tag, kids)) f = element tag kids f

-- `children()`: the nodes that are elements.
unfoldable pub elements : Forest → Forest
elements end = end
elements (text t rest) = elements rest
elements (element tag kids rest) = element tag kids (elements rest)

module _ (layout : Layout) (opts : Options) (max_height : ℕ) (after : After) where
  -- The content of the inner element, where the innermost open element has the content `f` and then
  -- `after`.
  unfoldable pub whole : List Frame → Forest → Forest
  whole ctx f = close_all ctx (put_after after f)

  -- `test`
  unfoldable pub over : List Frame → Forest → Bool
  unfolding whole
  over ctx f = ltb max_height (layout.height (whole ctx f))

  -- The variables of `ellipsisElement` at the start of its loop, and the loop.
  unfoldable pub cut_text : List Frame → Forest → Option Search
  cut_text ctx nodes =
      let txt = get_text_content layout opts nodes in
      let sep = separator opts.wrap txt in
      let parts = split sep txt in
      search layout opts (over ctx) (2 * length parts + 2 * length (first parts) + 6)
        (restart sep parts nodes)

  -- `textArr.length == 1 && textArr[0].length == 0`
  abbrev pub is_void : List Text → Bool
  is_void ([] ∷ []) = true
  is_void _ = false

  -- What follows the loop: a position that was found is used, and otherwise the code goes on.
  unfoldable pub use_position : List Frame → Search → Option Outcome → Option Outcome
  use_position ctx s rest = elim s.position [
    | none ↦ rest
    | some p ↦
        if is_void s.parts
        then rest
        else some (
            cut (
              whole ctx
                (set_text_content layout opts (add_ellipsis layout opts (beginning s p)) s.nodes)))
  ]

  -- `$p.contents().eq(-1)[0]` with an ellipsis: of the nodes in order, the last one; `none` is where
  -- there is none.
  unfoldable pub end_last : Forest → Option Forest
  end_last f = elim (reverse f) [
    | end ↦ none
    | text t rest ↦ some (set_text_content layout opts (add_ellipsis layout opts t) (text t rest))
    | element tag kids rest ↦ some (
        set_text_content layout opts (add_ellipsis layout opts (layout.inner_text kids))
          (element tag kids rest))
  ]

  -- `$w.prev()`: the last of the elements, backwards, with the nodes that stand behind it in front.
  unfoldable pub end_previous : Forest → Option Forest
  end_previous end = none
  end_previous (text t rest) = elim (end_previous rest) [ none ↦ none | some f ↦ some (text t f) ]
  end_previous (element tag kids rest) = elim (end_last kids) [
    | none ↦ none
    | some f ↦ some (element tag (reverse (put_after after f)) rest)
  ]

  -- The parent has no node left: the element in front of the parent gets the ellipsis, and the parent
  -- goes.
  unfoldable pub leave_parent : List Frame → Option Outcome
  leave_parent [] = some (kept end)
  leave_parent (c ∷ ctx) = elim (end_previous c.before) [
    | none ↦ some (kept end)
    | some f ↦ some (cut (close_all ctx f))
  ]

  -- `ellipsisElement` of the first of the nodes, which stand backwards; a node that is removed leaves it
  -- to the node in front.
  unfoldable pub ellipsis_element : List Frame → Forest → Option Outcome
  ellipsis_element ctx end = leave_parent ctx
  ellipsis_element ctx (text t up) =
      let rest = ellipsis_element ctx up in
      elim (cut_text ctx (text t up)) [ none ↦ none | some s ↦ use_position ctx s rest ]
  ellipsis_element ctx (element tag kids up) =
      let rest = ellipsis_element ctx up in
      elim (cut_text ctx (element tag kids up)) [ none ↦ none | some s ↦ use_position ctx s rest ]

  -- `ellipsis`: the nodes to come, and those of the same element so far, backwards.
  unfoldable pub ellipsis : List Frame → Forest → Forest → Option Outcome
  ellipsis ctx end f = some (kept f)
  ellipsis ctx (text t rest) f =
      let tested : Option Outcome =
        if over ctx (text t f) then ellipsis_element ctx (text t f) else some (kept (text t f)) in
      and_then tested (ellipsis ctx rest)
  ellipsis ctx (element tag kids rest) f =
      and_then (ellipsis (record { tag = tag; before = f } ∷ ctx) kids end)
        (λ k. ellipsis ctx rest (element tag (reverse k) f))

  -- The loop of `children`, on the child elements to come and those so far, backwards.
  unfoldable pub child_loop : Forest → Forest → Outcome
  child_loop end f = kept f
  child_loop (text t rest) f = child_loop rest f
  child_loop (element tag kids rest) f =
      let next = child_loop rest (element tag kids f) in
      if over [] (element tag kids f) then cut (whole [] f) else next

  -- `children`: what is no element goes.
  unfoldable pub children_of : Forest → Outcome
  children_of f = child_loop (elements f) end
