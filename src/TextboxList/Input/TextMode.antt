-- ===== src/TextboxList/Input/TextMode.antt =====
-- The text mode: while it is on, the clipboard handlers do nothing.
use colt_core.Base.{ℕ, zero, suc, ◌≡◌, refl, Bool, true, false, none, some, arith, Text}
use colt_core.TextboxList.Host.{Host}
use colt_core.TextboxList.Widget.{Options, Widget, run_handler, update, fire_update}
use colt_core.TextboxList.Bits.Kept.{IsApart, set_new_values-kept}
use colt_core.TextboxList.Input.{paste, cut, copy, begin_text_edit, text_area_blur, text_area_key}

abbrev Mode : Bool → Widget → Type 0
Mode m w = w.text_edit_mode ≡ m

run_handler-Mode :
    (host : Host) (m : Bool) (h : ℕ) (w : Widget) → Mode m w → Mode m (run_handler host h w)
unfolding run_handler update fire_update
run_handler-Mode host m zero w e = ground arith
run_handler-Mode host m (suc zero) w e = ground arith
run_handler-Mode host m (suc (suc h)) w e = e

Mode-IsApart : (host : Host) (m : Bool) → IsApart host (Mode m)
Mode-IsApart host m = record {
  handler = run_handler-Mode host m;
  bits = λ bs w e. e;
  index = λ ts w e. e;
  next_uid = λ u w e. e;
}

module _ (host : Host) (opts : Options) where
  text_area_blur-Mode :
      (t : Text) (w : Widget) (m : Bool) → Mode m w → Mode m (text_area_blur host opts t w)
  unfolding text_area_blur
  text_area_blur-Mode t w m = set_new_values-kept host opts (Mode m) (Mode-IsApart host m) t w

  -- A double click on a focused widget with a current bit starts a text edit. When the edit ends
  -- because the text area loses the focus, the text mode stays on: pasting changes nothing, and
  -- copying and cutting write nothing into the clipboard.
  pub clipboard_after_text_edit :
      (u : ℕ) (t clipboard : Text) (w : Widget)
      → w.focused ≡ true
      → w.current ≡ some u
      → let v = text_area_blur host opts t (begin_text_edit w) in
        (paste host opts clipboard v ≡ some v)
        × (cut host opts v ≡ some (none, v))
        × (copy v ≡ some none)
  unfolding paste cut copy
  clipboard_after_text_edit u t clipboard w f c = (rw (on, paste), rw (on, cut), rw (on, copy))
    where
      on : (text_area_blur host opts t (begin_text_edit w)).text_edit_mode ≡ true
      on = text_area_blur-Mode t (begin_text_edit w) true (unfold begin_text_edit in ground arith)

  -- Enter and Escape in the text area end the text mode.
  pub text_area_key_mode :
      (t : Text) (w : Widget) → (text_area_key host opts 13 t w).text_edit_mode ≡ false
  unfolding text_area_key
  text_area_key_mode t w = text_area_blur-Mode t (record w { text_edit_mode = false }) false refl
