-- ===== src/TextboxList/Examples.antt =====
-- A host with plain functions, small widgets, and the theorems at concrete inputs.
use colt_core.TextboxList.Actions.{act, after_init, writes, leaves_field, adds_file}
use colt_core.TextboxList.Actions.Order.{fresh, later, Reach-IsSeparated}
use colt_core.Base.{
  ◌&&◌, not, pos, ℕ, zero, suc, ◌≤◌, ◌≡◌, ◌≢◌, refl, true, false, Option, none, some, List, [], ◌∷◌,
  map, arith, Text, codes, ◌==◌, text_eq, text_eq_iff, if◌then◌else◌, get_elem?, filter_map,
  insert_at,
}
use colt_core.TextboxList.Host.{Host, Value}
use colt_core.TextboxList.Codec.{encode, decode, filled, join, plain_value}
use colt_core.TextboxList.Codec.RoundTrip.{filled-decode-encode}
use colt_core.TextboxList.Events.{add_event, handlers}
use colt_core.TextboxList.Events.Laws.{handlers-add_event}
use colt_core.TextboxList.Widget.{Bit, Options, Widget, defaults, init_events, get_values}
use colt_core.TextboxList.Bits.Placing.{placed}
use colt_core.TextboxList.Bits.{
  modify_bit, set_value, find_bit, index_of, to_box, set_new_values, count_boxes,
}
use colt_core.TextboxList.Bits.Placing.{fresh_editable}
use colt_core.TextboxList.Bits.Separated.{IsSeparated}
use colt_core.TextboxList.Bits.Order.{to_box-IsSeparated}
use colt_core.TextboxList.Bits.Values.{
  set_new_values_lem, set_new_values-set_new_values, count_boxes-set_new_values,
}
use colt_core.TextboxList.Caret.{
  Field, get_caret, get_caret_end, is_selected, get_caret-get_caret_end,
}
use colt_core.TextboxList.Fileset.{add_file, set_files}
use colt_core.TextboxList.Fileset.Reports.{
  application_writes_lem, to_box-Reports, text_box, Reports,
}
use colt_core.TextboxList.Input.{paste, cut, copy, begin_text_edit, text_area_blur}
use colt_core.TextboxList.Input.TextMode.{clipboard_after_text_edit}

first_text : Text → List Text → Option ℕ
first_text t [] = none
first_text t (u ∷ us) =
    let rest = first_text t us in
    if text_eq u t then some 0 else elim rest [ none ↦ none | some i ↦ some (suc i) ]

first_text_found :
    (t : Text) (ts : List Text) (i : ℕ) → first_text t ts ≡ some i → get_elem? ts i ≡ some t
unfolding first_text
first_text_found t [] i e = cc
first_text_found t (u ∷ us) zero e = ground (arith, text_eq_iff u t)
first_text_found t (u ∷ us) (suc i) e = ground (arith, first_text_found t us i)

first_text_absent :
    (t : Text) (ts : List Text) → first_text t ts ≡ none → (i : ℕ) → get_elem? ts i ≢ some t
unfolding first_text
first_text_absent t [] e i h = cc
first_text_absent t (u ∷ us) e zero h = ground (arith, text_eq_iff u t)
first_text_absent t (u ∷ us) e (suc i) h =
    ground (arith, λ (k : first_text t us ≡ none). first_text_absent t us k i h)

first_number : ℕ → List ℕ → Option ℕ
first_number n [] = none
first_number n (m ∷ ms) =
    let rest = first_number n ms in
    if m == n then some 0 else elim rest [ none ↦ none | some i ↦ some (suc i) ]

first_number_found :
    (n : ℕ) (ns : List ℕ) (i : ℕ) → first_number n ns ≡ some i → get_elem? ns i ≡ some n
unfolding first_number
first_number_found n [] i e = cc
first_number_found n (m ∷ ms) zero e = ground arith
first_number_found n (m ∷ ms) (suc i) e = ground (arith, first_number_found n ms i)

first_number_absent :
    (n : ℕ) (ns : List ℕ) → first_number n ns ≡ none → (i : ℕ) → get_elem? ns i ≢ some n
unfolding first_number
first_number_absent n [] e i h = cc
first_number_absent n (m ∷ ms) e zero h = ground arith
first_number_absent n (m ∷ ms) e (suc i) h =
    ground (arith, λ (k : first_number n ms ≡ none). first_number_absent n ms k i h)

filter_map-none :
    (f : Value → Option Text) (v : Value) (vs : List Value)
    → f v ≡ none
    → filter_map f (v ∷ vs) ≡ filter_map f vs
filter_map-none f v vs e = ground arith

filter_map-some :
    (f : Value → Option Text) (v : Value) (vs : List Value) (t : Text)
    → f v ≡ some t
    → filter_map f (v ∷ vs) ≡ t ∷ filter_map f vs
filter_map-some f v vs t e = ground arith

abbrev plain_host : Host
plain_host = record {
  map_values = λ f vs. filter_map f vs;
  map_nil = λ f. refl;
  map_none = filter_map-none;
  map_some = filter_map-some;
  in_array = first_text;
  in_array_found = first_text_found;
  in_array_absent = first_text_absent;
  in_numbers = first_number;
  in_numbers_found = first_number_found;
  in_numbers_absent = first_number_absent;
  to_lower = λ t. t;
  to_lower_idem = λ t. refl;
}

-- A list with one editable bit that holds a text and has the focus.
abbrev typed : Bit
typed = record (fresh_editable 0) { value = plain_value (codes "src"); focused = true }

abbrev one_field : Widget
one_field = record {
  bits = typed ∷ [];
  current = some 0;
  focused = true;
  index = [];
  events = init_events;
  original = [];
  timer = false;
  text_edit_mode = false;
  next_uid = 1;
  current_value = none;
  input_from_user = true;
  commands = [];
}

abbrev three : Options
three = record defaults { max = some 3 }

set_new_values_lem_example :
    (get_values (set_new_values plain_host defaults (codes "a,b, ,c") one_field).bits
      ≡ map plain_value (codes "a" ∷ codes "b" ∷ codes "c" ∷ []))
    × ((set_new_values plain_host defaults (codes "a,b, ,c") one_field).original ≡ codes "a, b, c")
unfolding decode filled join
set_new_values_lem_example =
    set_new_values_lem plain_host defaults (codes "a,b, ,c") one_field refl refl

set_new_values-set_new_values_example :
    (set_new_values plain_host defaults
      (set_new_values plain_host defaults (codes "a,b") one_field).original
      one_field).original
    ≡ (set_new_values plain_host defaults (codes "a,b") one_field).original
set_new_values-set_new_values_example =
    set_new_values-set_new_values plain_host defaults (codes "a,b") one_field one_field refl refl

count_boxes-set_new_values_example :
    count_boxes (set_new_values plain_host three (codes "a,b,c,d,e") one_field).bits ≤ 3
count_boxes-set_new_values_example =
    count_boxes-set_new_values plain_host three (codes "a,b,c,d,e") one_field 3 refl

filled-decode-encode_example :
    filled (decode (encode plain_host (plain_value (codes "a b") ∷ plain_value (codes "c") ∷ [])))
    ≡ codes "a b" ∷ codes "c" ∷ []
filled-decode-encode_example =
    filled-decode-encode plain_host (plain_value (codes "a b") ∷ plain_value (codes "c") ∷ []) (
      record { nonempty = λ e. cc; one_piece = omega arith; flush = omega arith },
      (record { nonempty = λ e. cc; one_piece = omega arith; flush = omega arith }, tt),
    )

to_box-IsSeparated_example : IsSeparated (to_box plain_host defaults 0 one_field).bits
to_box-IsSeparated_example = to_box-IsSeparated plain_host defaults refl refl 0 one_field refl

application_writes_lem_example :
    ((add_file plain_host defaults (codes "lib") one_field).commands ≡ [])
    × ((set_files plain_host defaults (codes "lib") one_field).commands ≡ [])
    × ((add_file plain_host defaults (codes "lib") one_field).input_from_user ≡ true)
    × ((set_files plain_host defaults (codes "lib") one_field).input_from_user ≡ true)
application_writes_lem_example = application_writes_lem plain_host defaults (codes "lib") one_field

to_box-Reports_example :
    let r = to_box plain_host defaults 0 one_field in
    let b = (text_box plain_host defaults (codes "src") one_field).0 in
    let w1 = (text_box plain_host defaults (codes "src") one_field).1 in
    (r.bits
      ≡ modify_bit 0 (set_value (plain_value [])) (placed defaults 0 b w1.next_uid one_field.bits))
    × (r.original
        ≡ encode plain_host (
            get_values (
              insert_at 0 (text_box plain_host defaults (codes "src") one_field).0 one_field.bits)))
    × Reports plain_host defaults one_field r
unfolding find_bit index_of
to_box-Reports_example =
    to_box-Reports plain_host defaults 0 0 typed one_field refl refl refl refl refl (cc) refl refl

handlers-add_event_example :
    handlers (add_event (codes "bitAdd") 7 init_events) (codes "bitAdd") ≡ some (0 ∷ 7 ∷ [])
unfolding init_events handlers
handlers-add_event_example = handlers-add_event (codes "bitAdd") (codes "bitAdd") 7 init_events

clipboard_after_text_edit_example :
    let v = text_area_blur plain_host defaults (codes "a, b") (begin_text_edit one_field) in
    (paste plain_host defaults (codes "c") v ≡ some v)
    × (cut plain_host defaults v ≡ some (none, v))
    × (copy v ≡ some none)
clipboard_after_text_edit_example =
    clipboard_after_text_edit plain_host defaults 0 (codes "a, b") (codes "c") one_field refl refl

-- The user writes into the second field, which stands between the boxes `a` and `b`, and leaves it;
-- then the application adds a file.
abbrev visited : Widget
visited = act plain_host defaults (adds_file (codes "lib")) (
    act plain_host defaults (leaves_field 3) (
      act plain_host defaults (writes 3 (codes "src"))
        (after_init plain_host defaults (codes "a, b"))))

Reach-IsSeparated_example : IsSeparated visited.bits
Reach-IsSeparated_example =
    Reach-IsSeparated plain_host defaults refl refl refl (codes "a, b") visited (
      later (later (later fresh (writes 3 (codes "src"))) (leaves_field 3))
        (adds_file (codes "lib")))

-- `ab` in the middle of a field that has it twice, in a browser with ranges.
abbrev selecting : Field
selecting = record {
  value = codes "abab";
  selection_start = 2;
  selection_end = 3;
  has_range = true;
  text_to_end = codes "ab";
  text_from_start = codes "aba";
  text_to_end_eq = refl;
  text_from_start_eq = refl;
}

get_caret-get_caret_end_example :
    (get_caret selecting ≡ pos 2)
    × (get_caret_end selecting ≡ 3)
    × (is_selected true selecting ≡ (true && not (2 == 3)))
get_caret-get_caret_end_example = get_caret-get_caret_end true selecting (omega arith) (omega arith)
