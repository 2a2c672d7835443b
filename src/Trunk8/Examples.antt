-- ===== src/Trunk8/Examples.antt =====
-- A browser with plain functions, and the theorems at concrete inputs.
use colt_core.Base.{
  ℕ, zero, suc, ◌+◌, ◌-◌, ◌≤◌, ◌<◌, ◌≡◌, refl, ap, ◌⊎◌, none, some, [], ◌∷◌, arith, Text, codes,
  length, length-append, take,
}
use colt_core.Trunk8.{Browser, center, ok, err, invalid_source, Cache, eat_str, lookup}
use colt_core.Trunk8.EatStr.{IsTrue, eat_center_single}
use colt_core.Trunk8.Truncate.{Element, defaults, truncate, limit}
use colt_core.Trunk8.Truncate.Fits.{truncate_fits, truncate_longest, kept_text}

-- A number is written as so many strokes.
unfoldable pub strokes : ℕ → Text
strokes zero = []
strokes (suc n) = b'1' ∷ strokes n

length-strokes : (n : ℕ) → length (strokes n) ≡ n
unfolding strokes
length-strokes zero = refl
length-strokes (suc n) = ap suc (length-strokes n)

pub strokes-injective : (m n : ℕ) → strokes m ≡ strokes n → m ≡ n
strokes-injective m n e = omega (arith, length-strokes m, length-strokes n, ap length e)

-- One line holds four characters.
abbrev pub narrow : Browser
narrow = record {
  trim = λ t. t;
  decimal = strokes;
  decimal_injective = strokes-injective;
  height = λ t. length t;
  line_height = 4;
  text = λ t. t;
}

abbrev message : Element
message = record {
  html = codes "abcdef";
  title = none;
  original_text = codes "abcdef";
  settings = record defaults { fill = codes "." };
}

empty-IsTrue : (str fill : Text) → IsTrue narrow str fill []
unfolding lookup
empty-IsTrue str fill bite v h = cc

eat_center_single_example :
    eat_str narrow (b'x' ∷ []) center 1 (codes "...") [] ≡ err invalid_source
eat_center_single_example = eat_center_single narrow b'x' (codes "...")

truncate_fits_example :
    (el' : Element) × (cache' : Cache) × (truncate narrow message [] ≡ some (ok (el', cache')))
    × ((el'.html ≡ []) ⊎ (length el'.html ≤ limit narrow message.settings))
    × IsTrue narrow (codes "abcdef") (codes ".") cache'
truncate_fits_example =
    truncate_fits narrow message refl refl [] (empty-IsTrue (codes "abcdef") (codes "."))

length-take : (n : ℕ) (t : Text) → n ≤ length t → length (take n t) ≡ n
length-take zero t h = refl
length-take (suc n) [] h = elim h [ ]
length-take (suc n) (c ∷ t) h = ap suc (length-take n t (omega arith))

abbrev kept : ℕ → Text
kept = kept_text narrow message refl refl

length-kept : (k : ℕ) → k < 6 → length (kept k) ≡ k + 1
length-kept k h =
    let n = 6 - (6 - k) in
    ground (
      arith,
      length-append (take n (codes "abcdef")) (codes "."),
      length-take n (codes "abcdef") (omega arith),
    )

truncate_longest_example :
    (el' : Element) × (cache' : Cache) × (truncate narrow message [] ≡ some (ok (el', cache')))
    × ((el'.html ≡ codes "abcdef")
        ⊎ ((k : ℕ)
            → k < 6
            → length (kept k) ≤ limit narrow message.settings
            → length (kept k) ≤ length el'.html))
truncate_longest_example =
    truncate_longest narrow message refl refl
      (λ j k le lt f. omega (arith, length-kept j (omega arith), length-kept k lt))
      (λ j k le lt. omega (arith, length-kept j (omega arith), length-kept k lt)) []
      (empty-IsTrue (codes "abcdef") (codes "."))
