-- ===== src/TextboxList/Input.antt =====
-- The handlers of jquery-textboxlist.js for the keyboard, the mouse and the clipboard.
pub mod TextMode
use colt_core.Base.{
  ℕ, ◌+◌, Bool, true, false, ◌&&◌, ◌||◌, not, Option, none, some, List, [], ◌∷◌, Text, codes, ◌==◌,
  if◌then◌else◌, length,
}
use colt_core.TextboxList.Host.{Host, Value}
use colt_core.TextboxList.Codec.{decode, plain_value}
use colt_core.TextboxList.Widget.{Kind, box, editable, Bit, Options, Widget, is_kind, get_value}
use colt_core.TextboxList.Bits.{find_bit, modify_bit, set_value, on_bits, to_box, set_new_values}
use colt_core.TextboxList.Focus.{blur_current, focus_bit, focus_prev, focus_next, remove}

-- A key that goes down. `caret` and `caret_end` are the selection in the field of the current bit, and
-- `defined` says which properties the event object has.
pub record KeyEvent : Type 0 where
  pub which : ℕ
  pub caret : ℕ
  pub caret_end : ℕ
  pub defined : Text → Bool

-- `!!$.map(['shift', 'alt', 'meta', 'ctrl'], function (e) { return ev[e]; }).length`
unfoldable pub special : KeyEvent → Bool
special ev =
    ev.defined (codes "shift")
    || ev.defined (codes "alt")
    || ev.defined (codes "meta")
    || ev.defined (codes "ctrl")

abbrev pub current_bit : Widget → Option Bit
current_bit w = elim w.current [ none ↦ none | some u ↦ find_bit u w.bits ]

-- `isSelected` of an editable bit
abbrev is_selected : KeyEvent → Bit → Bool
is_selected ev b = b.focused && not (ev.caret == ev.caret_end)

unfoldable pub custom : KeyEvent → Bit → Bool
custom ev b = special ev || (is_kind b.kind editable && is_selected ev b)

-- The tests of the two cases that move the focus.
unfoldable pub leaves_left : KeyEvent → Bit → Bool
leaves_left ev b =
    is_kind b.kind box || ((ev.caret == 0 || length (get_value b).plain == 0) && not (custom ev b))

unfoldable pub leaves_right : KeyEvent → Bit → Bool
leaves_right ev b =
    is_kind b.kind box || (ev.caret == length (get_value b).plain && not (custom ev b))

-- `copy`, with what it writes into the clipboard.
unfoldable pub copy : Widget → Option (Option Text)
copy w = if w.text_edit_mode then some none else elim (current_bit w) [
  | none ↦ none
  | some b ↦ some (if is_kind b.kind box then some b.value.plain else none)
]

-- `dblclick`: the text of the form's field is edited in a text area.
unfoldable pub begin_text_edit : Widget → Widget
begin_text_edit w =
    if w.focused
    then elim w.current [ none ↦ w | some u ↦ record w { text_edit_mode = true } ]
    else w

module _ (host : Host) (opts : Options) where
  go_left : KeyEvent → Bit → Widget → Option Widget
  go_left ev b w = some (if leaves_left ev b then focus_prev host opts b.uid w else w)

  go_right : KeyEvent → Bit → Widget → Option Widget
  go_right ev b w = some (if leaves_right ev b then focus_next host opts b.uid w else w)

  -- `switch (ev.which)`: backspace, left, delete and right; the first and the third fall through on
  -- an editable bit.
  unfoldable pub press : KeyEvent → Bit → Widget → Option Widget
  unfolding go_left go_right
  press ev b w =
      if ev.which == 8
      then (if is_kind b.kind box then remove host opts b w else go_left ev b w)
      else if ev.which == 37
      then go_left ev b w
      else if ev.which == 46
      then (if is_kind b.kind box then remove host opts b w else go_right ev b w)
      else if ev.which == 39
      then go_right ev b w
      else some w

  -- `keydown` of the document.
  unfoldable pub key_down : KeyEvent → Widget → Option Widget
  key_down ev w =
      if w.focused then elim (current_bit w) [ none ↦ some w | some b ↦ press ev b w ] else some w

  -- `keydown` of the field of the editable bit `u`.
  unfoldable pub field_key_down : ℕ → ℕ → Widget → Widget
  field_key_down u which w = elim (find_bit u w.bits) [
    | none ↦ w
    | some b ↦
        if b.focused
        then elim (host.in_numbers which opts.add_keys) [ none ↦ w | some i ↦ to_box host opts u w ]
        else w
  ]

  -- A click on a box, and on its delete button.
  unfoldable pub click_box : ℕ → Widget → Widget
  click_box u w = focus_bit host opts u w

  unfoldable pub click_delete : Bit → Widget → Option Widget
  click_delete b w = remove host opts b w

  -- `$(window).blur`
  unfoldable pub window_blur : Widget → Widget
  window_blur w = blur_current host opts w

  -- One round of the loop of `paste`. `none` is the exception that a missing bit or a box raises.
  unfoldable pub paste_one : Text → Widget → Option Widget
  paste_one t w = elim (current_bit w) [
    | none ↦ none
    | some b ↦
        if is_kind b.kind editable
        then some
            (to_box host opts b.uid (on_bits (modify_bit b.uid (set_value (plain_value t))) w))
        else none
  ]

  unfoldable pub paste_all : List Text → Widget → Option Widget
  paste_all [] w = some w
  paste_all (t ∷ ts) w = elim (paste_one t w) [ none ↦ none | some w' ↦ paste_all ts w' ]

  -- `paste` of the clipboard's text.
  unfoldable pub paste : Text → Widget → Option Widget
  paste clipboard w = if w.text_edit_mode then some w else elim (current_bit w) [
    | none ↦ none
    | some b ↦
        paste_all (decode clipboard)
          (if is_kind b.kind box then focus_next host opts b.uid w else w)
  ]

  -- `cut`, with what it writes into the clipboard; nothing happens on an editable bit.
  unfoldable pub cut : Widget → Option (Option Text × Widget)
  cut w = if w.text_edit_mode then some (none, w) else elim (current_bit w) [
    | none ↦ none
    | some b ↦
        if is_kind b.kind box
        then elim (remove host opts b w) [ none ↦ none | some w' ↦ some (some b.value.plain, w') ]
        else some (none, w)
  ]

  -- `onBlur` of the text area, with the text that it holds.
  unfoldable pub text_area_blur : Text → Widget → Widget
  text_area_blur t w = set_new_values host opts t w

  -- `keydown` of the text area: Enter and Escape.
  unfoldable pub text_area_key : ℕ → Text → Widget → Widget
  text_area_key key t w =
      if key == 13 || key == 27 then text_area_blur t (record w { text_edit_mode = false }) else w
