-- ===== src/TextboxList/Focus/Keeps.antt =====
-- What moving the focus keeps: any property of the bits that `toBox` keeps and that looks at neither
-- focus nor display, such as the order.
use colt_core.Base.{
  ℕ, ◌≡◌, refl, Bool, true, false, Option, none, some, List, arith, Text, codes, if◌then◌else◌,
  get_elem?, ◌+◌,
}
use colt_core.TextboxList.Host.{Host}
use colt_core.TextboxList.Widget.{Kind, box, editable, Bit, Options, Widget, fire, fire_bit_event}
use colt_core.TextboxList.Widget.Frame.{fire-Same, fire_bit_event-Same}
use colt_core.TextboxList.Bits.{modify_bit, find_bit, index_of, prev, hide, on_bits}
use colt_core.TextboxList.Bits.Separated.{IsSeparated, sep-modify_bit}
use colt_core.TextboxList.Bits.Order.{to_box-IsSeparated}
use colt_core.TextboxList.Focus.{
  hide_if_empty, on_blur, unfocus, mark_focused, field_blur, blur_bit, blur_current, on_focus,
  focus_bit, focus_prev, focus_next, blur, focus_name,
}

pub modify-IsSeparated :
    (u : ℕ) (f : Bit → Bit) (bs : List Bit)
    → ((b : Bit) → (f b).kind ≡ b.kind)
    → IsSeparated bs
    → IsSeparated (modify_bit u f bs)
modify-IsSeparated u f bs h s = rw (sep-modify_bit false u f bs h) s

hide_if_empty-IsSeparated :
    (u : ℕ) (w : Widget) → IsSeparated w.bits → IsSeparated (hide_if_empty u w).bits
unfolding hide_if_empty
hide_if_empty-IsSeparated u w s = ground (arith, modify-IsSeparated u hide w.bits (λ b. refl) s)

module _ (host : Host) (opts : Options) (start : opts.start_editable_bit ≡ true)
    (between : opts.in_between_editable_bits ≡ true) where
  fire-IsSeparated :
      (type : Text) (w : Widget) → IsSeparated w.bits → IsSeparated (fire host type w).bits
  fire-IsSeparated type w s = rw (fire-Same host type w).bits s

  fire_bit-IsSeparated :
      (type : Text) (kind : Kind) (w : Widget)
      → IsSeparated w.bits
      → IsSeparated (fire_bit_event host type kind w).bits
  fire_bit-IsSeparated type kind w s = rw (fire_bit_event-Same host type kind w).bits s

  pub field_blur-IsSeparated :
      (u : ℕ) (w : Widget) → IsSeparated w.bits → IsSeparated (field_blur host opts u w).bits
  unfolding field_blur
  field_blur-IsSeparated u w s = ground (arith, to_box-IsSeparated host opts start between u w s)

  -- A bit that loses the focus, and the box that its field may leave behind, keep the order.
  pub blur_bit-IsSeparated :
      (u : ℕ) (no_real : Bool) (w : Widget)
      → IsSeparated w.bits
      → IsSeparated (blur_bit host opts u no_real w).bits
  blur_bit-IsSeparated u no_real w s = on_found (find_bit u w.bits) refl
    where
      w0 : Widget
      w0 = on_blur (on_bits (modify_bit u unfocus) w)

      after : (k : Kind) → IsSeparated (fire_bit_event host (codes "blur") k w0).bits
      after k =
          fire_bit-IsSeparated (codes "blur") k w0
            (modify-IsSeparated u unfocus w.bits (λ b. refl) s)

      on_kind :
          (k : Kind)
          → (let w1 = fire_bit_event host (codes "blur") k w0 in
              let r : Widget = elim k [
                | box ↦ w1
                | editable ↦ hide_if_empty u (if no_real then w1 else field_blur host opts u w1)
              ] in
              IsSeparated r.bits)
      on_kind box = after box
      on_kind editable = hide_if_empty-IsSeparated u _ (on_real no_real)
        where
          on_real :
              (r : Bool)
              → IsSeparated
                  (if r
                    then fire_bit_event host (codes "blur") editable w0
                    else field_blur host opts u
                        (fire_bit_event host (codes "blur") editable w0)).bits
          on_real true = after editable
          on_real false = field_blur-IsSeparated u _ (after editable)

      on_focused :
          (b : Bit) (f : Bool)
          → find_bit u w.bits ≡ some b
          → b.focused ≡ f
          → IsSeparated (blur_bit host opts u no_real w).bits
      on_focused b true h e = unfold blur_bit in rw (h, e, blur_bit) (on_kind b.kind)
      on_focused b false h e = unfold blur_bit in rw (h, e, blur_bit) s

      on_found :
          (found : Option Bit)
          → find_bit u w.bits ≡ found
          → IsSeparated (blur_bit host opts u no_real w).bits
      on_found none h = unfold blur_bit in rw (h, blur_bit) s
      on_found (some b) h = on_focused b b.focused h refl

  pub blur_current-IsSeparated :
      (w : Widget) → IsSeparated w.bits → IsSeparated (blur_current host opts w).bits
  unfolding blur_current
  blur_current-IsSeparated w s = go w.current
    where
      go :
          (c : Option ℕ)
          → (let r : Widget = elim c [ none ↦ w | some u ↦ blur_bit host opts u false w ] in
              IsSeparated r.bits)
      go none = s
      go (some u) = blur_bit-IsSeparated u false w s

  on_focus-IsSeparated :
      (u : ℕ) (w : Widget) → IsSeparated w.bits → IsSeparated (on_focus host opts u w).bits
  unfolding on_focus
  on_focus-IsSeparated u w s = ground (
    arith,
    blur_current-IsSeparated w s,
    fire-IsSeparated focus_name
        (record (blur_current host opts w) { timer = false; current = some u; focused = true })
        (blur_current-IsSeparated w s),
  )

  pub focus_bit-IsSeparated :
      (u : ℕ) (w : Widget) → IsSeparated w.bits → IsSeparated (focus_bit host opts u w).bits
  unfolding focus_bit
  focus_bit-IsSeparated u w s = go (find_bit u w.bits)
    where
      w0 : Widget
      w0 = on_bits (modify_bit u mark_focused) w

      marked : IsSeparated (on_focus host opts u w0).bits
      marked = on_focus-IsSeparated u w0 (modify-IsSeparated u mark_focused w.bits (λ b. refl) s)

      go :
          (found : Option Bit)
          → (let r : Widget = elim found [
            | none ↦ w
            | some b ↦
                if b.focused
                then w
                else fire_bit_event host (codes "focus") b.kind (on_focus host opts u w0)
          ] in
              IsSeparated r.bits)
      go none = s
      go (some b) =
          ground
            (arith, fire_bit-IsSeparated (codes "focus") b.kind (on_focus host opts u w0) marked)

  focus_found-IsSeparated :
      (found : Option Bit) (w : Widget)
      → IsSeparated w.bits
      → (let r : Widget = elim found [ none ↦ w | some b ↦ focus_bit host opts b.uid w ] in
          IsSeparated r.bits)
  focus_found-IsSeparated none w s = s
  focus_found-IsSeparated (some b) w s = focus_bit-IsSeparated b.uid w s

  focus_prev-IsSeparated :
      (u : ℕ) (w : Widget) → IsSeparated w.bits → IsSeparated (focus_prev host opts u w).bits
  unfolding focus_prev
  focus_prev-IsSeparated u w s = go (index_of u w.bits)
    where
      go :
          (found : Option ℕ)
          → (let r : Widget = elim found [
            | none ↦ w
            | some i ↦ elim (prev i w.bits) [ none ↦ w | some b ↦ focus_bit host opts b.uid w ]
          ] in
              IsSeparated r.bits)
      go none = s
      go (some i) = focus_found-IsSeparated (prev i w.bits) w s

  focus_next-IsSeparated :
      (u : ℕ) (w : Widget) → IsSeparated w.bits → IsSeparated (focus_next host opts u w).bits
  unfolding focus_next
  focus_next-IsSeparated u w s = go (index_of u w.bits)
    where
      go :
          (found : Option ℕ)
          → (let r : Widget = elim found [
            | none ↦ w
            | some i ↦ elim (get_elem? w.bits (i + 1)) [
              | none ↦ w
              | some b ↦ focus_bit host opts b.uid w
            ]
          ] in
              IsSeparated r.bits)
      go none = s
      go (some i) = focus_found-IsSeparated (get_elem? w.bits (i + 1)) w s

  -- With `startEditableBit` and `inBetweenEditableBits` on, moving the focus to the bit before or
  -- behind, which may turn the field that is left into a box, keeps every box between two editable
  -- bits.
  pub focus_move-IsSeparated :
      (u : ℕ) (w : Widget)
      → IsSeparated w.bits
      → IsSeparated (focus_prev host opts u w).bits × IsSeparated (focus_next host opts u w).bits
  focus_move-IsSeparated u w s = (focus_prev-IsSeparated u w s, focus_next-IsSeparated u w s)

  -- With `startEditableBit` and `inBetweenEditableBits` on, the `blur` of the whole widget keeps every
  -- box between two editable bits.
  pub blur-IsSeparated : (w : Widget) → IsSeparated w.bits → IsSeparated (blur host opts w).bits
  unfolding blur
  blur-IsSeparated w s = ground (
    arith,
    fire-IsSeparated (codes "blur") (record (blur_current host opts w) { focused = false })
        (blur_current-IsSeparated w s),
  )
