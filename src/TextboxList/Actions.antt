-- ===== src/TextboxList/Actions.antt =====
-- The states of the fileset page: what `afterInit` of jquery-textboxlist.js and the page make, and what
-- the user, the timer and the application do to it, short of removing bits and of pasting.
pub mod Order
use colt_core.Base.{
  ℕ, Bool, true, false, ◌&&◌, ◌||◌, not, Option, none, some, List, [], ◌∷◌, Text, codes, ◌==◌,
  if◌then◌else◌,
}
use colt_core.TextboxList.Host.{Host}
use colt_core.TextboxList.Codec.{decode, plain_value}
use colt_core.TextboxList.Events.{add_event}
use colt_core.TextboxList.Widget.{Bit, Options, Widget}
use colt_core.TextboxList.Bits.{modify_bit, set_value, on_bits, to_box, set_values, clear}
use colt_core.TextboxList.Focus.{field_blur, blur_bit, focus_bit, focus_prev, focus_next, blur}
use colt_core.TextboxList.Input.{
  field_key_down, click_box, window_blur, begin_text_edit, text_area_blur, text_area_key,
}
use colt_core.TextboxList.Fileset.{add_file, set_files}

-- The widget over a form's field, before its first bit.
abbrev pub bare : Text → Widget
bare original = record {
  bits = [];
  current = none;
  focused = false;
  index = [];
  events = [];
  original = original;
  timer = false;
  text_edit_mode = false;
  next_uid = 0;
  current_value = none;
  input_from_user = true;
  commands = [];
}

-- The last bit of the list: `list.children().filter(':last')`.
unfoldable pub last_bit : List Bit → Option Bit
last_bit [] = none
last_bit (b ∷ bs) = let rest = last_bit bs in elim rest [ none ↦ some b | some c ↦ some c ]

-- Whether the bit `u` is the only one.
abbrev pub is_only : ℕ → List Bit → Bool
is_only u [] = false
is_only u (b ∷ []) = b.uid == u
is_only u (b ∷ c ∷ bs) = false

module _ (host : Host) (opts : Options) where
  -- `afterInit` binds `update` and reads the form's field; the page binds `fireUpdate` afterwards.
  unfoldable pub after_init : Text → Widget
  after_init original =
      let w = clear host opts (bare original) in
      let w1 = record w {
        events = add_event (codes "bitRemove") 0 (add_event (codes "bitAdd") 0 w.events);
      } in
      let w2 = set_values host opts (decode original) w1 in
      record w2 {
        events = add_event (codes "bitBoxRemove") 1 (add_event (codes "bitBoxAdd") 1 w2.events);
      }

  -- `focusLast`
  unfoldable pub focus_last : Widget → Widget
  focus_last w = elim (last_bit w.bits) [ none ↦ w | some b ↦ focus_bit host opts b.uid w ]

  -- A click on the container or on the list, outside the bits. `find(':last-child')` also finds what
  -- is in the bits, so its first element is the bit `u` only where that is the only bit.
  unfoldable pub click_container : Widget → Widget
  click_container w = elim w.current [
    | none ↦ if w.focused then w else focus_last w
    | some u ↦ if w.focused && is_only u w.bits then w else focus_last w
  ]

  -- A click elsewhere in the document.
  unfoldable pub click_outside : Widget → Widget
  click_outside w = if w.focused then blur host opts w else w

  -- The input field of the bit `u` loses the focus.
  unfoldable pub leave_field : ℕ → Widget → Widget
  leave_field u w = field_blur host opts u (blur_bit host opts u true w)

  -- The timer that `onBlur` sets.
  unfoldable pub blur_timer : Widget → Widget
  blur_timer w = if w.timer then blur host opts (record w { timer = false }) else w

-- What the user does (`writes` sets the text of a field), the timer, and the application.
pub data Action : Type 0 where
  writes : ℕ → Text → Action
  presses : ℕ → ℕ → Action
  clicks moves_left moves_right leaves_field : ℕ → Action
  clicks_container clicks_outside leaves_window runs_timer begins_edit : Action
  ends_edit adds_file sets_files : Text → Action
  presses_in_edit : ℕ → Text → Action

unfoldable pub act : Host → Options → Action → Widget → Widget
act host opts (writes u t) w = on_bits (modify_bit u (set_value (plain_value t))) w
act host opts (presses u which) w = field_key_down host opts u which w
act host opts (clicks u) w = click_box host opts u w
act host opts (moves_left u) w = focus_prev host opts u w
act host opts (moves_right u) w = focus_next host opts u w
act host opts (leaves_field u) w = leave_field host opts u w
act host opts clicks_container w = click_container host opts w
act host opts clicks_outside w = click_outside host opts w
act host opts leaves_window w = window_blur host opts w
act host opts runs_timer w = blur_timer host opts w
act host opts begins_edit w = begin_text_edit w
act host opts (ends_edit t) w = text_area_blur host opts t w
act host opts (adds_file t) w = add_file host opts t w
act host opts (sets_files t) w = set_files host opts t w
act host opts (presses_in_edit key t) w = text_area_key host opts key t w
