-- ===== src/TextboxList/Host.antt =====
-- What the script calls of jQuery and of the browser: a parameter of the model, with the documented
-- behaviour of each call.
use colt_core.Base.{ℕ, ◌≡◌, ◌≢◌, Option, none, some, List, [], ◌∷◌, Text, get_elem?}

-- A value of a box: `[id, plain, html]`. `none` is null or undefined.
pub record Value : Type 0 where
  pub id : Option Text
  pub plain : Text
  pub html : Option Text

pub record Host : Type 0 where
  -- `$.map`: the results of the callback that are neither null nor undefined, in order.
  pub map_values : (Value → Option Text) → List Value → List Text
  pub map_nil : (f : Value → Option Text) → map_values f [] ≡ []
  pub map_none :
      (f : Value → Option Text) (v : Value) (vs : List Value)
      → f v ≡ none
      → map_values f (v ∷ vs) ≡ map_values f vs
  pub map_some :
      (f : Value → Option Text) (v : Value) (vs : List Value) (t : Text)
      → f v ≡ some t
      → map_values f (v ∷ vs) ≡ t ∷ map_values f vs
  -- `$.inArray`: the index of the first occurrence; `none` is -1.
  pub in_array : Text → List Text → Option ℕ
  pub in_array_found :
      (t : Text) (ts : List Text) (i : ℕ) → in_array t ts ≡ some i → get_elem? ts i ≡ some t
  pub in_array_absent :
      (t : Text) (ts : List Text) → in_array t ts ≡ none → (i : ℕ) → get_elem? ts i ≢ some t
  -- The same function on numbers.
  pub in_numbers : ℕ → List ℕ → Option ℕ
  pub in_numbers_found :
      (n : ℕ) (ns : List ℕ) (i : ℕ) → in_numbers n ns ≡ some i → get_elem? ns i ≡ some n
  pub in_numbers_absent :
      (n : ℕ) (ns : List ℕ) → in_numbers n ns ≡ none → (i : ℕ) → get_elem? ns i ≢ some n
  -- `String.prototype.toLowerCase`
  pub to_lower : Text → Text
  pub to_lower_idem : (t : Text) → to_lower (to_lower t) ≡ to_lower t
