-- ===== src/TextboxList/Bits/Placing.antt =====
-- Where `inject` puts a box, and what the placed bits hold.
use colt_core.Base.{
  ℕ, zero, suc, ◌+◌, ◌≡◌, refl, ◌∙◌, true, false, List, [], ◌∷◌, ◌++◌, arith, insert_at,
  if◌then◌else◌, length,
}
use colt_core.TextboxList.Host.{Host}
use colt_core.TextboxList.Codec.{plain_value}
use colt_core.TextboxList.Widget.{box, editable, Bit, Options, Widget, get_value, get_values}
use colt_core.TextboxList.Widget.Frame.{fire_bit_event-Same}
use colt_core.TextboxList.Bits.{
  modify_bit, wants_editable, prev, hide, on_bits, inject_editable, create_editable, on_add,
  inject_box, note_value, add_editable, count_boxes, after_last_box,
}

-- The editable bit that `onAdd` makes.
abbrev pub fresh_editable : ℕ → Bit
fresh_editable u = record {
  uid = u;
  kind = editable;
  value = plain_value [];
  focused = false;
  hidden = false;
  shown = true;
}

module _ (opts : Options) where
  -- The bits with the box at the place `i`, and with the editable bit that it wants in front.
  abbrev pub placed : ℕ → Bit → ℕ → List Bit → List Bit
  placed i b u bs =
      let bs' = insert_at i b bs in
      if wants_editable opts (prev i bs')
      then (let all = insert_at i (fresh_editable u) bs' in
          if opts.hide_editable_bits then modify_bit u hide all else all)
      else bs'

module _ (host : Host) (opts : Options) where
  pub inject_editable_bits :
      (i : ℕ) (b : Bit) (w : Widget) → (inject_editable host opts i b w).bits ≡ insert_at i b w.bits
  unfolding inject_editable
  inject_editable_bits i b w = (fire_bit_event-Same host _ _ (on_bits (insert_at i b) w)).bits

  note_value_bits : (b : Bit) (w : Widget) → (note_value host opts b w).bits ≡ w.bits
  unfolding note_value
  note_value_bits b w = ground arith

  note_value_uid : (b : Bit) (w : Widget) → (note_value host opts b w).next_uid ≡ w.next_uid
  unfolding note_value
  note_value_uid b w = ground arith

  add_editable_bits :
      (i : ℕ) (w : Widget)
      → (add_editable host opts i w).bits ≡ (
          let all = insert_at i (fresh_editable w.next_uid) w.bits in
          if opts.hide_editable_bits then modify_bit w.next_uid hide all else all)
  unfolding add_editable create_editable
  add_editable_bits i w = ground (
    arith,
    inject_editable_bits i (fresh_editable w.next_uid) (record w { next_uid = w.next_uid + 1 }),
  )

  on_add_bits :
      (i : ℕ) (b : Bit) (w : Widget)
      → (on_add host opts i b (on_bits (insert_at i b) w)).bits ≡ placed opts i b w.next_uid w.bits
  unfolding on_add
  on_add_bits i b w =
      let w' = on_bits (insert_at i b) w in
      let v = note_value host opts b w' in
      rw (note_value_bits b w')
        (ground (arith, add_editable_bits i v, note_value_bits b w', note_value_uid b w'))

  -- `inject` of a box makes the new list from the old one and the next identity.
  pub inject_box_bits :
      (i : ℕ) (b : Bit) (w : Widget)
      → (inject_box host opts i b w).bits ≡ placed opts i b w.next_uid w.bits
  unfolding inject_box
  inject_box_bits i b w =
      (fire_bit_event-Same host _ _ (on_add host opts i b (on_bits (insert_at i b) w))).bits
      ∙ on_add_bits i b w

-- An editable bit has no part in the values.
get_values-insert_editable :
    (i : ℕ) (e : Bit) (bs : List Bit)
    → e.kind ≡ editable
    → get_values (insert_at i e bs) ≡ get_values bs
unfolding get_values
get_values-insert_editable zero e bs h = ground arith
get_values-insert_editable (suc i) e [] h = ground arith
get_values-insert_editable (suc i) e (c ∷ bs) h =
    ground (arith, get_values-insert_editable i e bs h)

get_values-hide : (u : ℕ) (bs : List Bit) → get_values (modify_bit u hide bs) ≡ get_values bs
unfolding get_values modify_bit
get_values-hide u [] = refl
get_values-hide u (c ∷ bs) = ground (arith, get_values-hide u bs)

pub get_values-placed :
    (opts : Options) (i : ℕ) (b : Bit) (u : ℕ) (bs : List Bit)
    → get_values (placed opts i b u bs) ≡ get_values (insert_at i b bs)
get_values-placed opts i b u bs = ground (
  arith,
  get_values-hide u (insert_at i (fresh_editable u) (insert_at i b bs)),
  get_values-insert_editable i (fresh_editable u) (insert_at i b bs) refl,
)

-- With no box in the list there are no values.
get_values-no_box : (bs : List Bit) → after_last_box bs ≡ 0 → get_values bs ≡ []
unfolding get_values after_last_box
get_values-no_box [] h = refl
get_values-no_box (c ∷ bs) h = ground (arith, get_values-no_box bs)

-- A box behind the last one adds its value at the end.
pub get_values-after_last_box :
    (b : Bit) (bs : List Bit)
    → b.kind ≡ box
    → get_values (insert_at (after_last_box bs) b bs) ≡ get_values bs ++ get_value b ∷ []
unfolding get_values after_last_box
get_values-after_last_box b [] h = ground arith
get_values-after_last_box b (c ∷ bs) h =
    ground (arith, get_values-after_last_box b bs h, get_values-no_box bs)

pub count_boxes-get_values : (bs : List Bit) → count_boxes bs ≡ length (get_values bs)
unfolding count_boxes get_values
count_boxes-get_values [] = refl
count_boxes-get_values (c ∷ bs) = ground (arith, count_boxes-get_values bs)
