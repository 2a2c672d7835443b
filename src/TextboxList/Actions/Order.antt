-- ===== src/TextboxList/Actions/Order.antt =====
-- In every state of the page each box stands between two editable bits.
use colt_core.Base.{◌≡◌, refl, true, false, Option, none, some, Text, arith}
use colt_core.TextboxList.Host.{Host}
use colt_core.TextboxList.Codec.{plain_value, decode}
use colt_core.TextboxList.Widget.{Bit, Options, Widget}
use colt_core.TextboxList.Bits.{set_value}
use colt_core.TextboxList.Bits.Separated.{IsSeparated}
use colt_core.TextboxList.Bits.Order.{
  to_box-IsSeparated, add-IsSeparated, set_values-IsSeparated, clear-IsSeparated,
  set_new_values-IsSeparated,
}
use colt_core.TextboxList.Focus.{blur_bit, focus_bit}
use colt_core.TextboxList.Focus.Keeps.{
  modify-IsSeparated, field_blur-IsSeparated, blur_bit-IsSeparated, blur_current-IsSeparated,
  focus_bit-IsSeparated, focus_move-IsSeparated, blur-IsSeparated,
}
use colt_core.TextboxList.Input.{
  field_key_down, click_box, window_blur, begin_text_edit, text_area_blur, text_area_key,
}
use colt_core.TextboxList.Fileset.{add_file, set_files}
use colt_core.TextboxList.Actions.{
  Action, writes, presses, clicks, moves_left, moves_right, leaves_field, clicks_container,
  clicks_outside, leaves_window, runs_timer, begins_edit, ends_edit, adds_file, sets_files,
  presses_in_edit, act, after_init, bare, focus_last, click_container, click_outside, leave_field,
  blur_timer, last_bit,
}

-- The states that actions lead to, from the page's start with the text of the form's field.
pub data Reach (host : Host) (opts : Options) (original : Text) : Widget → Type 0 where
  fresh : Reach host opts original (after_init host opts original)
  later :
      {w : Widget}
      → Reach host opts original w
      → (a : Action) → Reach host opts original (act host opts a w)

module _ (host : Host) (opts : Options) (start : opts.start_editable_bit ≡ true)
    (between : opts.in_between_editable_bits ≡ true) (end : opts.end_editable_bit ≡ true) where
  focus_last-IsSeparated :
      (w : Widget) → IsSeparated w.bits → IsSeparated (focus_last host opts w).bits
  unfolding focus_last
  focus_last-IsSeparated w s = go (last_bit w.bits)
    where
      go :
          (found : Option Bit)
          → (let r : Widget = elim found [ none ↦ w | some b ↦ focus_bit host opts b.uid w ] in
              IsSeparated r.bits)
      go none = s
      go (some b) = focus_bit-IsSeparated host opts start between b.uid w s

  act-IsSeparated :
      (a : Action) (w : Widget) → IsSeparated w.bits → IsSeparated (act host opts a w).bits
  unfolding act
  act-IsSeparated (writes u t) w s =
      modify-IsSeparated u (set_value (plain_value t)) w.bits (λ b. refl) s
  act-IsSeparated (presses u which) w s =
      unfold field_key_down in ground (arith, to_box-IsSeparated host opts start between u w s)
  act-IsSeparated (clicks u) w s =
      unfold click_box in focus_bit-IsSeparated host opts start between u w s
  act-IsSeparated (moves_left u) w s = (focus_move-IsSeparated host opts start between u w s).0
  act-IsSeparated (moves_right u) w s = (focus_move-IsSeparated host opts start between u w s).1
  act-IsSeparated (leaves_field u) w s =
      unfold leave_field in
      field_blur-IsSeparated host opts start between u (blur_bit host opts u true w)
        (blur_bit-IsSeparated host opts start between u true w s)
  act-IsSeparated clicks_container w s =
      unfold click_container in ground (arith, focus_last-IsSeparated w s)
  act-IsSeparated clicks_outside w s =
      unfold click_outside in ground (arith, blur-IsSeparated host opts start between w s)
  act-IsSeparated leaves_window w s =
      unfold window_blur in blur_current-IsSeparated host opts start between w s
  act-IsSeparated runs_timer w s =
      unfold blur_timer in
      ground (arith, blur-IsSeparated host opts start between (record w { timer = false }) s)
  act-IsSeparated begins_edit w s = unfold begin_text_edit in ground arith
  act-IsSeparated (ends_edit t) w s =
      unfold text_area_blur in set_new_values-IsSeparated host opts start between t w end
  act-IsSeparated (adds_file t) w s =
      unfold add_file in
      add-IsSeparated host opts start between (plain_value t) (record w { input_from_user = false })
        s
  act-IsSeparated (sets_files t) w s =
      unfold set_files in
      set_new_values-IsSeparated host opts start between t (record w { input_from_user = false })
        end
  act-IsSeparated (presses_in_edit key t) w s =
      unfold text_area_key text_area_blur in
      ground (
        arith,
        set_new_values-IsSeparated host opts start between t (record w { text_edit_mode = false })
            end,
      )

  -- With `startEditableBit`, `inBetweenEditableBits` and `endEditableBit` on: in every state that the
  -- user, the blur timer and the application bring the page to, from its start on, each box stands
  -- between two editable bits. Removing a bit and pasting are not among the actions.
  pub Reach-IsSeparated :
      (original : Text) (w : Widget) → Reach host opts original w → IsSeparated w.bits
  Reach-IsSeparated original w fresh =
      unfold after_init in
      set_values-IsSeparated host opts start between (decode original) _
        (clear-IsSeparated host opts start between (bare original) end)
  Reach-IsSeparated original w (later {w = v} h a) =
      act-IsSeparated a v (Reach-IsSeparated original v h)
