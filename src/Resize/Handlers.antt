-- ===== src/Resize/Handlers.antt =====
-- The hook `add` of the event `resize` in jquery-resize.js, which jQuery calls for each handler that is
-- bound, and the handler that it puts in its place.
use colt_core.Base.{ℕ, ◌≡◌, refl, Bool, true, false, ◌&&◌, not, Option, if◌then◌else◌}
use colt_core.Resize.{Poll, new_handler}

-- A handler, on an element and with the size that the event carries, if it carries one. It changes the
-- data of the elements and the rest of the page.
abbrev pub Handler {ℓ} : Type ℓ → Type ℓ
Handler Rest = ℕ → Option (ℕ × ℕ) → Poll × Rest → Poll × Rest

-- What jQuery hands to `add`: the handler itself up to 1.4.1, an object that holds it from 1.4.2.
pub data HandleObj {ℓ} (H : Type ℓ) : Type ℓ where
  function object : H → HandleObj H

-- What `add` does: it declines, returns a handler, or changes the handler of the object.
pub data Added {ℓ} (H : Type ℓ) : Type ℓ where
  declined : Added H
  returned assigned : H → Added H

-- The handler that runs for an element in the end, where `h` was to be bound.
abbrev pub bound_handler {ℓ} : {H : Type ℓ} → H → Added H → H
bound_handler h declined = h
bound_handler h (returned g) = g
bound_handler h (assigned g) = g

abbrev pub held {ℓ} : {H : Type ℓ} → HandleObj H → H
held (function h) = h
held (object h) = h

module _ {ℓ} {Rest : Type ℓ} (width height : ℕ → ℕ) where
  -- `new_handler` around the handler that `add` is given.
  unfoldable pub wrapped : Handler Rest → Handler Rest
  wrapped old_handler e size (p, rest) =
      old_handler e size (new_handler width height e size p, rest)

  -- `add`, where `is_window` says that the element has a `setTimeout`.
  unfoldable pub add : Bool → Bool → HandleObj (Handler Rest) → Added (Handler Rest)
  add throttle is_window handle_obj =
      if not throttle && is_window
      then declined
      else elim handle_obj [ function h ↦ returned (wrapped h) | object h ↦ assigned (wrapped h) ]

  -- In either way of handing it over, a handler of an element that is no window is run after the size
  -- of the event, or the element's own, is in the element's data.
  pub bound_handler-add :
      (throttle : Bool) (o : HandleObj (Handler Rest)) (e : ℕ) (size : Option (ℕ × ℕ)) (p : Poll)
      (rest : Rest)
      → bound_handler (held o) (add throttle false o) e size (p, rest)
        ≡ held o e size (new_handler width height e size p, rest)
  unfolding add wrapped
  bound_handler-add true (function h) e size p rest = refl
  bound_handler-add true (object h) e size p rest = refl
  bound_handler-add false (function h) e size p rest = refl
  bound_handler-add false (object h) e size p rest = refl
