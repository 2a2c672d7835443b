-- ===== src/TextboxList/Caret.antt =====
-- The caret of an editable bit of jquery-textboxlist.js (`getCaret`, `getCaretEnd`, `isSelected`), in
-- browsers with a selection of the field and in those with a range of the document.
use colt_core.Base.{
  ℕ, zero, suc, ◌≤◌, ◌<◌, ◌≡◌, refl, Bool, true, false, ◌&&◌, not, Option, none, some, [], ◌∷◌,
  Text, ◌==◌, ==_refl, if◌then◌else◌, length, length-drop, take, drop, arith, ℤ, pos, negsuc, ◌⊎◌,
  inl, inr, ap, Bool-cases,
}

-- The field, with the range that `document.selection.createRange()` makes. Its text is asked for with
-- its end moved on by the length of the value (`text_to_end`), and with its start moved back by it
-- (`text_from_start`); such a move stops at the end of the field.
pub record Field : Type 0 where
  pub value : Text
  pub selection_start : ℕ
  pub selection_end : ℕ
  pub has_range : Bool
  pub text_to_end : Text
  pub text_from_start : Text
  pub text_to_end_eq : text_to_end ≡ drop selection_start value
  pub text_from_start_eq : text_from_start ≡ take selection_end value

abbrev starts_with : Text → Text → Bool
starts_with [] t = true
starts_with (c ∷ w) [] = false
starts_with (c ∷ w) (d ∷ t) = c == d && starts_with w t

-- `String.prototype.lastIndexOf`; `none` is -1.
unfoldable pub last_index_of : Text → Text → Option ℕ
last_index_of [] w = if starts_with w [] then some 0 else none
last_index_of (c ∷ t) w =
    let rest = last_index_of t w in
    elim rest [ some i ↦ some (suc i) | none ↦ if starts_with w (c ∷ t) then some 0 else none ]

-- `getCaret`
unfoldable pub get_caret : Field → ℤ
get_caret el =
    if el.has_range
    then (if length el.text_to_end == 0
        then pos (length el.value)
        else elim (last_index_of el.value el.text_to_end) [ none ↦ negsuc 0 | some i ↦ pos i ])
    else pos el.selection_start

-- `getCaretEnd`
unfoldable pub get_caret_end : Field → ℕ
get_caret_end el = if el.has_range then length el.text_from_start else el.selection_end

-- `isSelected`
unfoldable pub is_selected : Bool → Field → Bool
is_selected focused el =
    focused && not (elim (get_caret el) [ pos n ↦ n == get_caret_end el | negsuc n ↦ false ])

longer-not_prefix : (w t : Text) → length t < length w → starts_with w t ≡ false
longer-not_prefix [] t h = ground arith
longer-not_prefix (c ∷ w) [] h = refl
longer-not_prefix (c ∷ w) (d ∷ t) h = ground (arith, longer-not_prefix w t (omega arith))

own_prefix : (t : Text) → starts_with t t ≡ true
own_prefix [] = refl
own_prefix (c ∷ t) = rw (==_refl c, own_prefix t) refl

longer-absent : (t w : Text) → length t < length w → last_index_of t w ≡ none
unfolding last_index_of
longer-absent [] w h = rw (longer-not_prefix w [] h) refl
longer-absent (c ∷ t) w h = rw (longer-absent t w (omega arith), longer-not_prefix w (c ∷ t) h) refl

-- What follows a place in a text is found last at that place.
suffix_found : (t : Text) (k : ℕ) → k < length t → last_index_of t (drop k t) ≡ some k
unfolding last_index_of
suffix_found [] k h = ground arith
suffix_found (c ∷ t) zero h =
    rw (longer-absent t (c ∷ t) (omega arith), ==_refl c, own_prefix t) refl
suffix_found (c ∷ t) (suc k) h = rw (suffix_found t k (omega arith)) refl

length-take : (k : ℕ) (t : Text) → k ≤ length t → length (take k t) ≡ k
length-take zero t h = refl
length-take (suc k) [] h = ground arith
length-take (suc k) (c ∷ t) h = omega (arith, length-take k t (omega arith))

range_end : (v : Text) (k : ℕ) → length v ≤ k → (length (drop k v) == 0) ≡ true
range_end v k h = ground (arith, length-drop k v)

range_inside : (v : Text) (k : ℕ) → k < length v → (length (drop k v) == 0) ≡ false
range_inside v k h = ground (arith, length-drop k v)

compare_cases : (a b : ℕ) → (a < b) ⊎ (b ≤ a)
compare_cases a b = ground arith

-- `getCaret` on the range's text, for the place of a caret in a text.
range_caret :
    (v : Text) (k : ℕ)
    → k ≤ length v
    → (if length (drop k v) == 0
        then pos (length v)
        else elim (last_index_of v (drop k v)) [ none ↦ negsuc 0 | some i ↦ pos i ])
      ≡ pos k
range_caret v k h = elim (compare_cases k (length v)) [
  | inl lt ↦ rw (range_inside v k lt, suffix_found v k lt) refl
  | inr le ↦ rw (range_end v k le) (ap pos (omega arith))
]

start_of :
    (el : Field) → el.selection_start ≤ length el.value → get_caret el ≡ pos el.selection_start
unfolding get_caret
start_of el h = elim (Bool-cases el.has_range) [
  | inl r ↦ rw (r, el.text_to_end_eq) (range_caret el.value el.selection_start h)
  | inr r ↦ rw r refl
]

end_of : (el : Field) → el.selection_end ≤ length el.value → get_caret_end el ≡ el.selection_end
unfolding get_caret_end
end_of el h = elim (Bool-cases el.has_range) [
  | inl r ↦ rw (r, el.text_from_start_eq) (length-take el.selection_end el.value h)
  | inr r ↦ rw r refl
]

-- For a selection in the field, both kinds of browser give the same caret, the start of the selection,
-- and the same end, and the bit is selected exactly if it has the focus and the selection is not empty.
pub get_caret-get_caret_end :
    (focused : Bool) (el : Field)
    → el.selection_start ≤ el.selection_end
    → el.selection_end ≤ length el.value
    → (get_caret el ≡ pos el.selection_start)
      × (get_caret_end el ≡ el.selection_end)
      × (is_selected focused el ≡ (focused && not (el.selection_start == el.selection_end)))
unfolding is_selected
get_caret-get_caret_end focused el h k =
    let caret = start_of el (omega arith) in
    let caret_end = end_of el k in (caret, caret_end, rw (caret, caret_end) refl)
