-- ===== src/TextboxList/Widget.antt =====
-- The state of a `$.TextboxList` with its bits (`$.TextboxListBit`), and of the page
-- fileset-webview.html over it; `update`, the page's `fireUpdate`, and `fireBitEvent`.
pub mod Frame
use colt_core.Base.{
  ℕ, zero, suc, ◌-◌, Bool, true, false, ◌&&◌, ◌||◌, not, Option, none, some, List, [], ◌∷◌, ◌++◌,
  Text, codes, ◌==◌, leb, text_eq, if◌then◌else◌,
}
use colt_core.TextboxList.Host.{Host, Value}
use colt_core.TextboxList.Codec.{encode, plain_value}
use colt_core.TextboxList.Events.{Table, add_event, fire_event}

pub data Kind : Type 0 where
  box editable : Kind

-- A `TextboxListBit`, with its `<li>`. The value of an editable bit is what its input field holds.
-- `shown` is the style `display: block`.
pub record Bit : Type 0 where
  pub uid : ℕ
  pub kind : Kind
  pub value : Value
  pub focused : Bool
  pub hidden : Bool
  pub shown : Bool

-- The options that change what the widget does. `max` is unset where it is null.
pub record Options : Type 0 where
  pub max : Option ℕ
  pub unique : Bool
  pub unique_insensitive : Bool
  pub end_editable_bit : Bool
  pub start_editable_bit : Bool
  pub hide_editable_bits : Bool
  pub in_between_editable_bits : Bool
  pub add_on_blur : Bool
  pub add_keys : List ℕ

-- The defaults of the script, which the page keeps.
abbrev pub defaults : Options
defaults = record {
  max = none;
  unique = false;
  unique_insensitive = true;
  end_editable_bit = true;
  start_editable_bit = true;
  hide_editable_bits = true;
  in_between_editable_bits = true;
  add_on_blur = true;
  add_keys = 188 ∷ 32 ∷ 13 ∷ [];
}

-- `bits` are the children of the `<ul>`; `current` names a bit; `original` is the text of the form's
-- field; `timer` says whether the blur timer runs. The last three fields are the page's.
pub record Widget : Type 0 where
  pub bits : List Bit
  pub current : Option ℕ
  pub focused : Bool
  pub index : List Text
  pub events : Table
  pub original : Text
  pub timer : Bool
  pub text_edit_mode : Bool
  pub next_uid : ℕ
  pub current_value : Option Text
  pub input_from_user : Bool
  pub commands : List Text

abbrev pub is_kind : Kind → Kind → Bool
is_kind box box = true
is_kind editable editable = true
is_kind _ _ = false

-- `getValue` of a bit; an input field has no id and no html.
abbrev pub get_value : Bit → Value
get_value b = elim b.kind [ box ↦ b.value | editable ↦ plain_value b.value.plain ]

-- `getValues`: the values of the bits that are not editable.
unfoldable pub get_values : List Bit → List Value
get_values [] = []
get_values (b ∷ bs) =
    let rest = get_values bs in elim b.kind [ box ↦ get_value b ∷ rest | editable ↦ rest ]

-- `\w` of a regular expression.
is_word : ℕ → Bool
is_word c =
    leb b'a' c && leb c b'z' || leb b'A' c && leb c b'Z' || leb b'0' c && leb c b'9' || c == b'_'

-- `/\b[a-z]/g` of `capitalize`: a small letter behind no word character becomes a capital one.
capitalize_from : Bool → Text → Text
unfolding is_word
capitalize_from in_word [] = []
capitalize_from in_word (c ∷ t) =
    (if not in_word && (leb b'a' c && leb c b'z') then c - 32 else c)
    ∷ capitalize_from (is_word c) t

unfoldable pub capitalize : Text → Text
unfolding capitalize_from
capitalize t = capitalize_from false t

abbrev pub kind_type : Kind → Text
kind_type box = codes "box"
kind_type editable = codes "editable"

-- `getFiles() != currentValue`, where `currentValue` is undefined at first.
abbrev pub differs : Option Text → Text → Bool
differs none t = true
differs (some s) t = not (text_eq t s)

module _ (host : Host) where
  -- `update`, which `addEvent` binds to the events `bitAdd` and `bitRemove`.
  unfoldable pub update : Widget → Widget
  update w = record w { original = encode host (get_values w.bits) }

  -- `getText`, with the state that its `update` leaves.
  unfoldable pub get_text : Widget → Text × Widget
  get_text w = let w' = update w in (w'.original, w')

  -- `fireUpdate` of the page. Each command is an `alert("command:update:…")` to the application.
  unfoldable pub fire_update : Widget → Widget
  fire_update w =
      let w' = update w in
      if differs w'.current_value w'.original && w'.input_from_user
      then record w' {
        current_value = some w'.original;
        commands = w'.commands ++ w'.original ∷ [];
      }
      else w'

  -- The functions that are bound to events: 0 is `update`, 1 is `fireUpdate`; no other is.
  unfoldable pub run_handler : ℕ → Widget → Widget
  run_handler zero w = update w
  run_handler (suc zero) w = fire_update w
  run_handler (suc (suc n)) w = w

  unfoldable pub fire : Text → Widget → Widget
  fire type w = fire_event run_handler w.events type w

  -- `fireBitEvent`, for a bit of the given kind.
  unfoldable pub fire_bit_event : Text → Kind → Widget → Widget
  fire_bit_event type kind w =
      let type' = capitalize type in
      fire (codes "bit" ++ capitalize (kind_type kind) ++ type') (fire (codes "bit" ++ type') w)

-- The table that `afterInit` and the page fill.
unfoldable pub init_events : Table
unfolding add_event
init_events = add_event (codes "bitBoxRemove") 1 (
    add_event (codes "bitBoxAdd") 1
      (add_event (codes "bitRemove") 0 (add_event (codes "bitAdd") 0 [])))
