-- ===== src/TextboxList/Focus.antt =====
-- Focus, blur and removal of bits, and the moves between them. What a bit does on a DOM event of its
-- input field is run where the code triggers that event.
pub mod Keeps
use colt_core.Base.{
  ℕ, zero, suc, ◌+◌, Bool, true, false, ◌&&◌, Option, none, some, List, [], ◌∷◌, Text, codes, ◌==◌,
  if◌then◌else◌, get_elem?, length,
}
use colt_core.TextboxList.Host.{Host}
use colt_core.TextboxList.Widget.{
  box, editable, Bit, Options, Widget, is_kind, get_value, fire, fire_bit_event,
}
use colt_core.TextboxList.Bits.{
  index_of, find_bit, modify_bit, delete_bit, hide, on_bits, prev, unique_value, to_box,
}

-- `index = index.splice(i + 1, 1)`: what `splice` returns is the list of the elements that it takes.
unfoldable pub splice_one : ℕ → List Text → List Text
splice_one i ts = elim (get_elem? ts i) [ none ↦ [] | some t ↦ t ∷ [] ]

-- Last lines of `blur` of an editable bit.
unfoldable pub hide_if_empty : ℕ → Widget → Widget
hide_if_empty u w = elim (find_bit u w.bits) [
  | none ↦ w
  | some b ↦ if b.hidden && (length b.value.plain == 0) then on_bits (modify_bit u hide) w else w
]

-- `onBlur` of the list; the delay is always 200 milliseconds.
abbrev pub on_blur : Widget → Widget
on_blur w = record w { current = none; timer = true }

abbrev pub unfocus : Bit → Bit
unfocus b = record b { focused = false }

abbrev pub mark_focused : Bit → Bit
mark_focused b = record b { focused = true; shown = true }

-- The widget's own events.
abbrev pub focus_name : Text
focus_name = codes "focus"

module _ (host : Host) (opts : Options) where
  -- The handler of the input field's `blur`: its `blur(true)` returns at once, since the bit has lost
  -- the focus already.
  unfoldable pub field_blur : ℕ → Widget → Widget
  field_blur u w = if opts.add_on_blur then to_box host opts u w else w

  -- `blur(noReal)` of the bit `u`.
  unfoldable pub blur_bit : ℕ → Bool → Widget → Widget
  blur_bit u no_real w = elim (find_bit u w.bits) [
    | none ↦ w
    | some b ↦
        if b.focused
        then (let w1 =
              fire_bit_event host (codes "blur") b.kind
                (on_blur (on_bits (modify_bit u unfocus) w)) in
            elim b.kind [
              | box ↦ w1
              | editable ↦ hide_if_empty u (if no_real then w1 else field_blur u w1)
            ])
        else w
  ]

  -- `if (current) current.blur()`
  unfoldable pub blur_current : Widget → Widget
  blur_current w = elim w.current [ none ↦ w | some c ↦ blur_bit c false w ]

  -- `onFocus` of the list.
  unfoldable pub on_focus : ℕ → Widget → Widget
  on_focus u w =
      let w1 = blur_current w in
      let w2 = record w1 { timer = false; current = some u } in
      if w2.focused then w2 else fire host focus_name (record w2 { focused = true })

  -- `focus` of the bit `u`. With or without `noReal` the result is the same: the handler of the input
  -- field's `focus` finds that the bit has the focus.
  unfoldable pub focus_bit : ℕ → Widget → Widget
  focus_bit u w = elim (find_bit u w.bits) [
    | none ↦ w
    | some b ↦
        if b.focused
        then w
        else fire_bit_event host (codes "focus") b.kind
            (on_focus u (on_bits (modify_bit u mark_focused) w))
  ]

  -- `focusRelative('prev', to)` and `focusRelative('next', to)`, for a bit that is in the list.
  unfoldable pub focus_prev : ℕ → Widget → Widget
  focus_prev u w = elim (index_of u w.bits) [
    | none ↦ w
    | some i ↦ elim (prev i w.bits) [ none ↦ w | some b ↦ focus_bit b.uid w ]
  ]

  unfoldable pub focus_next : ℕ → Widget → Widget
  focus_next u w = elim (index_of u w.bits) [
    | none ↦ w
    | some i ↦ elim (get_elem? w.bits (i + 1)) [ none ↦ w | some b ↦ focus_bit b.uid w ]
  ]

  -- `blur` of the list: by the blur timer, or by a click outside.
  unfoldable pub blur : Widget → Widget
  blur w =
      if w.focused
      then fire host (codes "blur") (record (blur_current w) { focused = false })
      else w

  -- The `unique` part of `onRemove`.
  unfoldable pub forget_value : Bit → Widget → Widget
  forget_value b w =
      if opts.unique && is_kind b.kind box
      then elim (host.in_array (unique_value host opts (get_value b)) w.index) [
        | none ↦ w
        | some i ↦ record w { index = splice_one (i + 1) w.index }
      ]
      else w

  -- The editable bit in front of the bit `u`, which `onRemove` removes too.
  unfoldable pub prior_editable : ℕ → List Bit → Option Bit
  prior_editable u bs = elim (index_of u bs) [
    | none ↦ none
    | some i ↦ elim (prev i bs) [
      | none ↦ none
      | some b ↦ if is_kind b.kind editable then some b else none
    ]
  ]

  -- `remove` of a bit, with its `onRemove`. The calls for the editable bits in front of it nest; the
  -- number bounds their depth, and `none` is what comes of a bound that is too small.
  unfoldable pub remove_bit : ℕ → Bit → Widget → Option Widget
  remove_bit zero b w = none
  remove_bit (suc depth) b w =
      let w1 = blur_bit b.uid false w in
      let finish = λ (v : Widget).
        fire_bit_event host (codes "remove") b.kind (on_bits (delete_bit b.uid) v) in
      let w2 = forget_value b w1 in
      let nested = λ (p : Bit). remove_bit depth p w2 in
      if w1.focused
      then elim (prior_editable b.uid w2.bits) [
        | none ↦ some (finish (focus_next b.uid w2))
        | some p ↦ elim (nested p) [ none ↦ none | some w3 ↦ some (finish (focus_next b.uid w3)) ]
      ]
      else some (finish w1)

  -- `remove`, to the depth of the number of bits and one.
  unfoldable pub remove : Bit → Widget → Option Widget
  remove b w = remove_bit (suc (length w.bits)) b w
