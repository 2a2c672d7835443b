-- ===== src/TextboxList/Bits.antt =====
-- The list of bits: finding, changing, making and placing them (`create`, `onAdd` and `inject`), and
-- what makes and places boxes (`toBox`, `add`, `setValues`, `clear`).
pub mod Separated
pub mod Placing
pub mod Values
pub mod Order
pub mod Kept
use colt_core.Base.{
  ℕ, zero, suc, ◌+◌, Bool, true, false, ◌&&◌, Option, none, some, List, [], ◌∷◌, ◌++◌, Text, codes,
  ◌==◌, ltb, if◌then◌else◌, get_elem?, insert_at,
}
use colt_core.TextboxList.Host.{Host, Value}
use colt_core.TextboxList.Codec.{chk, label, decode, plain_value}
use colt_core.TextboxList.Widget.{
  Kind, box, editable, Bit, Options, Widget, is_kind, get_value, update, fire_bit_event,
}

unfoldable pub index_of : ℕ → List Bit → Option ℕ
index_of u [] = none
index_of u (b ∷ bs) =
    let rest = index_of u bs in
    if b.uid == u then some 0 else elim rest [ none ↦ none | some i ↦ some (suc i) ]

unfoldable pub find_bit : ℕ → List Bit → Option Bit
find_bit u [] = none
find_bit u (b ∷ bs) = if b.uid == u then some b else find_bit u bs

unfoldable pub modify_bit : ℕ → (Bit → Bit) → List Bit → List Bit
modify_bit u f [] = []
modify_bit u f (b ∷ bs) = (if b.uid == u then f b else b) ∷ modify_bit u f bs

-- `bit.remove()`: the element leaves the list.
unfoldable pub delete_bit : ℕ → List Bit → List Bit
delete_bit u [] = []
delete_bit u (b ∷ bs) = let rest = delete_bit u bs in if b.uid == u then bs else b ∷ rest

unfoldable pub count_boxes : List Bit → ℕ
count_boxes [] = 0
count_boxes (b ∷ bs) = elim b.kind [ box ↦ suc (count_boxes bs) | editable ↦ count_boxes bs ]

-- The place behind the last box, 0 if there is none.
unfoldable pub after_last_box : List Bit → ℕ
after_last_box [] = 0
after_last_box (b ∷ bs) =
    let rest = after_last_box bs in
    elim rest [ zero ↦ elim b.kind [ box ↦ 1 | editable ↦ 0 ] | suc k ↦ suc (suc k) ]

-- `element.val(…)` of an editable bit, and `value = v` of a box: `setValue`.
abbrev pub set_value : Value → Bit → Bit
set_value v b = record b { value = elim b.kind [ box ↦ v | editable ↦ plain_value (label v) ] }

abbrev pub show : Bit → Bit
show b = record b { shown = true }

abbrev pub hide : Bit → Bit
hide b = record b { shown = false; hidden = true }

abbrev pub on_bits : (List Bit → List Bit) → Widget → Widget
on_bits f w = record w { bits = f w.bits }

-- The bit in front of the place `i`: `prev()`.
abbrev pub prev : ℕ → List Bit → Option Bit
prev zero bs = none
prev (suc i) bs = get_elem? bs i

module _ (opts : Options) where
  -- Whether `onAdd` puts an editable bit in front of a box: behind another box, or first in the list.
  unfoldable pub wants_editable : Option Bit → Bool
  wants_editable none = opts.start_editable_bit
  wants_editable (some prior) = is_kind prior.kind box && opts.in_between_editable_bits

module _ (host : Host) (opts : Options) where
  abbrev pub unique_value : Value → Text
  unique_value v =
      if chk v.id
      then label v
      else if opts.unique_insensitive
      then host.to_lower v.plain
      else v.plain

  -- A new bit, with the state in which its identity is used up.
  abbrev pub new_bit : Kind → Value → Widget → Bit × Widget
  new_bit kind value w = (
    record {
      uid = w.next_uid;
      kind = kind;
      value = value;
      focused = false;
      hidden = false;
      shown = true;
    },
    record w { next_uid = w.next_uid + 1 },
  )

  -- The two guards of `create` for a box.
  unfoldable pub over_max : List Bit → Bool
  over_max bs = elim opts.max [ none ↦ false | some m ↦ ltb m (count_boxes bs + 1) ]

  unfoldable pub taken : Value → Widget → Bool
  taken value w =
      opts.unique
      && elim (host.in_array (unique_value value) w.index) [ none ↦ false | some i ↦ true ]

  -- `create('box', value)`; `none` is false.
  unfoldable pub create_box : Value → Widget → Option (Bit × Widget)
  unfolding over_max taken
  create_box value w =
      if over_max w.bits then none else if taken value w then none else some (new_bit box value w)

  -- `create('editable')`, whose input field is empty.
  unfoldable pub create_editable : Widget → Bit × Widget
  create_editable w = new_bit editable (plain_value []) w

  -- `inject` of an editable bit at the place `i`. Its `onAdd` does nothing.
  unfoldable pub inject_editable : ℕ → Bit → Widget → Widget
  inject_editable i b w = fire_bit_event host (codes "add") editable (on_bits (insert_at i b) w)

  -- The `unique` part of `onAdd`.
  unfoldable pub note_value : Bit → Widget → Widget
  note_value b w =
      if opts.unique then record w { index = w.index ++ unique_value (get_value b) ∷ [] } else w

  -- The editable bit that `onAdd` makes, at the place `i`.
  unfoldable pub add_editable : ℕ → Widget → Widget
  add_editable i w =
      let (e, w1) = create_editable w in
      let w2 = inject_editable i e w1 in
      if opts.hide_editable_bits then on_bits (modify_bit e.uid hide) w2 else w2

  -- `onAdd` of a box at the place `i`.
  unfoldable pub on_add : ℕ → Bit → Widget → Widget
  on_add i b w =
      let w1 = note_value b w in
      if wants_editable opts (prev i w1.bits) then add_editable i w1 else w1

  -- `inject` of a box at the place `i`.
  unfoldable pub inject_box : ℕ → Bit → Widget → Widget
  inject_box i b w = fire_bit_event host (codes "add") box (on_add i b (on_bits (insert_at i b) w))

  -- The box that `toBox` made goes in front of the editable bit `u`, whose field is emptied.
  unfoldable pub inject_before : ℕ → Bit × Widget → Widget
  inject_before u (b, w) = elim (index_of u w.bits) [
    | none ↦ w
    | some i ↦ on_bits (modify_bit u (set_value (plain_value []))) (inject_box i b w)
  ]

  -- `toBox` of the editable bit `u`; a box has no such method. `value == ",,"` says that the input
  -- field is empty: an array is compared with a text by its elements joined with commas.
  unfoldable pub to_box : ℕ → Widget → Widget
  to_box u w = elim (find_bit u w.bits) [
    | none ↦ w
    | some e ↦
        if is_kind e.kind editable && chk (some (label (get_value e)))
        then elim (create_box (get_value e) w) [ none ↦ w | some made ↦ inject_before u made ]
        else w
  ]

  -- `add(plain, id, html)` with no element given: behind the last box, or first in the list.
  unfoldable pub add : Value → Widget → Widget
  add value w = elim (create_box value w) [
    | none ↦ w
    | some (b, w1) ↦ inject_box (after_last_box w1.bits) b w1
  ]

  unfoldable pub set_values : List Text → Widget → Widget
  set_values [] w = w
  set_values ([] ∷ ts) w = set_values ts w
  set_values ((c ∷ t) ∷ ts) w = set_values ts (add (plain_value (c ∷ t)) w)

  -- `clear`: the elements go at once, with no event, and the `index` and `current` stay.
  unfoldable pub clear : Widget → Widget
  clear w =
      let w1 = record w { bits = [] } in
      if opts.end_editable_bit
      then (let (e, w2) = create_editable w1 in inject_editable 0 e w2)
      else w1

  unfoldable pub set_new_values : Text → Widget → Widget
  set_new_values values w = update host (set_values (decode values) (clear w))
