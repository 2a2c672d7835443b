-- ===== src/Dotdotdot/Ellipsis/Total.antt =====
-- `ellipsis` of dotdotdot.js always comes to an end, and content with no text is never cut.
use colt_core.Base.{
  Bool, true, false, ℕ, ◌≡◌, refl, Option, none, some, List, [], ◌∷◌, ◌∙◌, ap, if◌then◌else◌,
}
use colt_core.Dotdotdot.Forest.{
  Forest, end, text, element, Frame, rev_onto, reverse, reverse-reverse, close_all,
}
use colt_core.Dotdotdot.Content.{
  Layout, Options, split, separator, get_text_content, set_text_content, add_ellipsis,
}
use colt_core.Dotdotdot.Search.{Search, beginning}
use colt_core.Dotdotdot.Search.Ends.{search_ends}
use colt_core.Dotdotdot.Ellipsis.{
  Outcome, kept, cut, After, and_then, cut_text, use_position, leave_parent, ellipsis_element,
  ellipsis, over, end_previous, whole, is_void,
}

module _ (layout : Layout) (opts : Options) (max_height : ℕ) (after : After) where
  abbrev pub Returns : Option Outcome → Type 0
  Returns r = (o : Outcome) × (r ≡ some o)

  if-Returns :
      (b : Bool) (x y : Option Outcome) → Returns x → Returns y → Returns (if b then x else y)
  if-Returns true x y hx hy = hx
  if-Returns false x y hx hy = hy

  use_position-Returns :
      (ctx : List Frame) (s : Search) (rest : Option Outcome)
      → Returns rest
      → Returns (use_position layout opts max_height after ctx s rest)
  unfolding use_position
  use_position-Returns ctx s rest r = go s.position
    where
      used : ℕ → Option Outcome
      used p = some (
          cut (
            whole layout opts max_height after ctx
              (set_text_content layout opts (add_ellipsis layout opts (beginning s p)) s.nodes)))

      go :
          (found : Option ℕ)
          → Returns (elim found [
            | none ↦ rest
            | some p ↦ if is_void layout opts max_height after s.parts then rest else used p
          ])
      go none = r
      go (some p) = if-Returns (is_void layout opts max_height after s.parts) rest (used p) r (
        cut (
            whole layout opts max_height after ctx
              (set_text_content layout opts (add_ellipsis layout opts (beginning s p)) s.nodes)),
        refl,
      )

  leave_parent-Returns :
      (ctx : List Frame) → Returns (leave_parent layout opts max_height after ctx)
  unfolding leave_parent
  leave_parent-Returns [] = (kept end, refl)
  leave_parent-Returns (c ∷ ctx) = go (end_previous layout opts max_height after c.before)
    where
      go :
          (found : Option Forest)
          → Returns (elim found [ none ↦ some (kept end) | some f ↦ some (cut (close_all ctx f)) ])
      go none = (kept end, refl)
      go (some f) = (cut (close_all ctx f), refl)

  pub cut_text-Returns :
      (ctx : List Frame) (f : Forest)
      → (s : Search) × (cut_text layout opts max_height after ctx f ≡ some s)
  unfolding cut_text
  cut_text-Returns ctx f =
      let txt = get_text_content layout opts f in
      search_ends layout opts (over layout opts max_height after ctx) (separator opts.wrap txt)
        (split (separator opts.wrap txt) txt) f

  ellipsis_element-Returns :
      (ctx : List Frame) (f : Forest)
      → Returns (ellipsis_element layout opts max_height after ctx f)
  unfolding ellipsis_element
  ellipsis_element-Returns ctx end = leave_parent-Returns ctx
  ellipsis_element-Returns ctx (text t up) =
      let (s, e) = cut_text-Returns ctx (text t up) in
      rw (e, ellipsis_element) (use_position-Returns ctx s _ (ellipsis_element-Returns ctx up))
  ellipsis_element-Returns ctx (element tag kids up) =
      let (s, e) = cut_text-Returns ctx (element tag kids up) in
      rw (e, ellipsis_element) (use_position-Returns ctx s _ (ellipsis_element-Returns ctx up))

  and_then-Returns :
      (r : Option Outcome) (k : Forest → Option Outcome)
      → Returns r
      → ((f : Forest) → Returns (k f))
      → Returns (and_then r k)
  and_then-Returns r k (kept f, e) h = rw e (h f)
  and_then-Returns r k (cut w, e) h = rw e (cut w, refl)

  -- `ellipsis` comes to an end on every content.
  pub ellipsis-Returns :
      (ctx : List Frame) (rest f : Forest)
      → Returns (ellipsis layout opts max_height after ctx rest f)
  unfolding ellipsis
  ellipsis-Returns ctx end f = (kept f, refl)
  ellipsis-Returns ctx (text t rest) f =
      and_then-Returns _ _
        (if-Returns (over layout opts max_height after ctx (text t f)) _ _
          (ellipsis_element-Returns ctx (text t f)) (kept (text t f), refl))
        (λ g. ellipsis-Returns ctx rest g)
  ellipsis-Returns ctx (element tag kids rest) f =
      and_then-Returns _ _ (ellipsis-Returns (record { tag = tag; before = f } ∷ ctx) kids end)
        (λ k. ellipsis-Returns ctx rest (element tag (reverse k) f))

  -- No text anywhere in the content.
  abbrev pub IsTextless : Forest → Type 0
  IsTextless end = Unit {0}
  IsTextless (text t rest) = ⊥
  IsTextless (element tag kids rest) = IsTextless kids × IsTextless rest

  -- Content with no text in it, such as pictures, is kept whole and counts as not cut, however high it
  -- is.
  pub ellipsis-IsTextless :
      (ctx : List Frame) (rest f : Forest)
      → IsTextless rest
      → ellipsis layout opts max_height after ctx rest f ≡ some (kept (rev_onto rest f))
  unfolding ellipsis rev_onto
  ellipsis-IsTextless ctx end f n = refl
  ellipsis-IsTextless ctx (text t rest) f n = elim n [ ]
  ellipsis-IsTextless ctx (element tag kids rest) f (nk, nr) =
      rw (ellipsis-IsTextless (record { tag = tag; before = f } ∷ ctx) kids end nk) (
        ellipsis-IsTextless ctx rest (element tag (reverse (rev_onto kids end)) f) nr
        ∙ ap (λ (k : Forest). some (kept (rev_onto rest (element tag k f)))) (reverse-reverse kids))
