-- ===== src/TextboxList/Widget/Frame.antt =====
-- What firing an event leaves alone, and that it writes the values into the form's field.
use colt_core.Base.{ℕ, zero, suc, ◌≡◌, refl, ◌∙◌, ap, none, some, List, [], ◌∷◌, Text, codes, arith}
use colt_core.TextboxList.Host.{Host}
use colt_core.TextboxList.Codec.{encode}
use colt_core.TextboxList.Events.{handlers, run_all, fire_event}
use colt_core.TextboxList.Events.Laws.{fire_event_inv}
use colt_core.TextboxList.Widget.{
  Kind, box, editable, Widget, get_values, capitalize, update, fire_update, run_handler, fire,
  fire_bit_event, init_events,
}

-- The fields that no handler writes.
pub record Same (w v : Widget) : Type 0 where
  pub bits : v.bits ≡ w.bits
  pub current : v.current ≡ w.current
  pub focused : v.focused ≡ w.focused
  pub index : v.index ≡ w.index
  pub events : v.events ≡ w.events
  pub timer : v.timer ≡ w.timer
  pub text_edit_mode : v.text_edit_mode ≡ w.text_edit_mode
  pub next_uid : v.next_uid ≡ w.next_uid
  pub input_from_user : v.input_from_user ≡ w.input_from_user

pub Same-trans : {u v w : Widget} → Same u v → Same v w → Same u w
Same-trans p q = ground arith

pub Same-refl : (w : Widget) → Same w w
Same-refl w = ground arith

module _ (host : Host) where
  pub update-Same : (w : Widget) → Same w (update host w)
  unfolding update
  update-Same w = ground arith

  fire_update-Same : (w : Widget) → Same w (fire_update host w)
  unfolding fire_update update
  fire_update-Same w = ground arith

  run_handler-Same : (h : ℕ) (w : Widget) → Same w (run_handler host h w)
  run_handler-Same zero w = unfold run_handler in update-Same w
  run_handler-Same (suc zero) w = unfold run_handler in fire_update-Same w
  run_handler-Same (suc (suc h)) w = unfold run_handler in Same-refl w

  pub fire-Same : (type : Text) (w : Widget) → Same w (fire host type w)
  unfolding fire
  fire-Same type w =
      fire_event_inv (run_handler host) (Same w) (λ h v s. Same-trans s (run_handler-Same h v))
        w.events type w (Same-refl w)

  pub fire_bit_event-Same :
      (type : Text) (kind : Kind) (w : Widget) → Same w (fire_bit_event host type kind w)
  unfolding fire_bit_event
  fire_bit_event-Same type kind w = Same-trans (fire-Same _ w) (fire-Same _ _)

  -- The form's field holds the text of the boxes.
  abbrev pub IsSynced : Widget → Type 0
  IsSynced w = w.original ≡ encode host (get_values w.bits)

  run_handler-IsSynced : (h : ℕ) (w : Widget) → IsSynced w → IsSynced (run_handler host h w)
  unfolding run_handler update fire_update
  run_handler-IsSynced zero w s = refl
  run_handler-IsSynced (suc zero) w s = ground arith
  run_handler-IsSynced (suc (suc h)) w s = s

  pub fire-IsSynced : (type : Text) (w : Widget) → IsSynced w → IsSynced (fire host type w)
  unfolding fire
  fire-IsSynced type w =
      fire_event_inv (run_handler host) IsSynced run_handler-IsSynced w.events type w

  pub fire_bit_event-IsSynced :
      (type : Text) (kind : Kind) (w : Widget)
      → IsSynced w
      → IsSynced (fire_bit_event host type kind w)
  unfolding fire_bit_event
  fire_bit_event-IsSynced type kind w s = fire-IsSynced _ _ (fire-IsSynced _ w s)

  fire-some :
      (type : Text) (w : Widget) (hs : List ℕ)
      → handlers w.events type ≡ some hs
      → fire host type w ≡ run_all (run_handler host) hs w
  unfolding fire fire_event
  fire-some type w hs h = rw (h, fire_event)

  bit_add_handlers : handlers init_events (codes "bitAdd") ≡ some (0 ∷ [])
  unfolding handlers init_events
  bit_add_handlers = refl

  fire_bit_add :
      (w : Widget) → w.events ≡ init_events → fire host (codes "bitAdd") w ≡ update host w
  unfolding run_all run_handler
  fire_bit_add w e =
      fire-some (codes "bitAdd") w (0 ∷ [])
        (ap (λ t. handlers t (codes "bitAdd")) e ∙ bit_add_handlers)

  bit_box_add_handlers : handlers init_events (codes "bitBoxAdd") ≡ some (1 ∷ [])
  unfolding handlers init_events
  bit_box_add_handlers = refl

  fire_bit_box_add :
      (w : Widget) → w.events ≡ init_events → fire host (codes "bitBoxAdd") w ≡ fire_update host w
  unfolding run_all run_handler
  fire_bit_box_add w e =
      fire-some (codes "bitBoxAdd") w (1 ∷ [])
        (ap (λ t. handlers t (codes "bitBoxAdd")) e ∙ bit_box_add_handlers)

  bit_editable_add_handlers : handlers init_events (codes "bitEditableAdd") ≡ none
  unfolding handlers init_events
  bit_editable_add_handlers = refl

  fire_bit_editable_add :
      (w : Widget) → w.events ≡ init_events → fire host (codes "bitEditableAdd") w ≡ w
  unfolding fire fire_event
  fire_bit_editable_add w e =
      rw (ap (λ t. handlers t (codes "bitEditableAdd")) e ∙ bit_editable_add_handlers, fire_event)

  -- An added box: the field is brought up to date, and then the page looks at it.
  pub add_box_event :
      (w : Widget)
      → w.events ≡ init_events
      → fire_bit_event host (codes "add") box w ≡ fire_update host (update host w)
  unfolding fire_bit_event capitalize
  add_box_event w e =
      ap (fire host (codes "bitBoxAdd")) (fire_bit_add w e)
      ∙ fire_bit_box_add (update host w) ((update-Same w).events ∙ e)

  -- An added editable bit: the field is brought up to date.
  pub add_editable_event :
      (w : Widget)
      → w.events ≡ init_events
      → fire_bit_event host (codes "add") editable w ≡ update host w
  unfolding fire_bit_event capitalize
  add_editable_event w e =
      ap (fire host (codes "bitEditableAdd")) (fire_bit_add w e)
      ∙ fire_bit_editable_add (update host w) ((update-Same w).events ∙ e)

  -- With the table that the widget starts with, `bitAdd` brings the field up to date, whatever it held.
  pub add_event-IsSynced :
      (kind : Kind) (w : Widget)
      → w.events ≡ init_events
      → IsSynced (fire_bit_event host (codes "add") kind w)
  unfolding fire_bit_event capitalize
  add_event-IsSynced kind w e =
      fire-IsSynced _ (fire host (codes "bitAdd") w) (rw (fire_bit_add w e) (unfold update in refl))
