-- ===== src/Trunk8.antt =====
-- trunk8.js, which the log page loads to cut long messages: `eatStr` with its cache, and the state of
-- an element.
pub mod EatStr
pub mod Truncate
pub mod Methods
pub mod LineHeight
pub mod Html
pub mod Examples
use colt_core.Base.{
  ℕ, ◌+◌, ◌-◌, ◌/◌, ◌≡◌, ◌≢◌, Bool, Option, none, some, List, [], ◌∷◌, ◌++◌, Text, codes, ◌==◌, ltb,
  text_eq, if◌then◌else◌, length, take, drop,
}

-- What the script calls of the browser and of jQuery. `height` is the height of the element, in its
-- width and font, with the given content; `line_height` is that of one line; `text` is what `text()`
-- returns of the content. `decimal` is how a number is written, and `trim` is `$.trim`.
pub record Browser : Type 0 where
  pub trim : Text → Text
  pub decimal : ℕ → Text
  pub decimal_injective : (m n : ℕ) → decimal m ≡ decimal n → m ≡ n
  pub height : Text → ℕ
  pub line_height : ℕ
  pub text : Text → Text

-- The side of the text that is bitten off; any other word is an error.
pub data Side : Type 0 where
  left right center : Side
  other : Text → Side

abbrev pub side_text : Side → Text
side_text left = codes "left"
side_text right = codes "right"
side_text center = codes "center"
side_text (other t) = t

pub data Error : Type 0 where
  invalid_source invalid_bite_size invalid_side invalid_width unknown_method no_data : Error

-- `$.error` throws; so does reading a field of data that an element does not have.
pub data Result {ℓ} (A : Type ℓ) : Type ℓ where
  ok : A → Result A
  err : Error → Result A

infixl 5 ◌>>=◌
abbrev pub ◌>>=◌ {ℓ κ} : {A : Type ℓ} {B : Type κ} → Result A → (A → Result B) → Result B
ok a >>= f = f a
err e >>= f = err e

abbrev pub Cache : Type 0
Cache = List (Text × Text)

unfoldable pub lookup : Text → Cache → Option Text
lookup k [] = none
lookup k ((j, v) ∷ m) = if text_eq j k then some v else lookup k m

module _ (browser : Browser) where
  open browser use {trim, decimal}

  -- `generateKey`: the arguments, joined by nothing.
  unfoldable pub generate_key : Text → Side → ℕ → Text → Text
  generate_key str side bite fill = str ++ side_text side ++ decimal bite ++ fill

  -- The start of `eatStr`: the cache, and the guards. `rest` is the switch behind them.
  unfoldable pub guarded :
      Text → Side → ℕ → Text → (Cache → Result (Text × Cache)) → Cache → Result (Text × Cache)
  guarded str side bite fill rest cache =
      let compute : Result (Text × Cache) =
        if length str == 0
        then err invalid_source
        else if ltb (length str) bite
        then err invalid_bite_size
        else if bite == 0
        then ok (str, cache)
        else rest cache in
      elim (lookup (generate_key str side bite fill) cache) [
        | none ↦ compute
        | some v ↦ elim v [ [] ↦ compute | c ∷ t ↦ ok (c ∷ t, cache) ]
      ]

  -- `return cache[key] = value`
  abbrev pub remember : Text → Side → ℕ → Text → Text → Cache → Result (Text × Cache)
  remember str side bite fill value cache =
      ok (value, (generate_key str side bite fill, value) ∷ cache)

  unfoldable pub eat_right : Text → ℕ → Text → Cache → Result (Text × Cache)
  eat_right str bite fill =
      guarded str right bite fill
        (remember str right bite fill (trim (take (length str - bite) str) ++ fill))

  unfoldable pub eat_left : Text → ℕ → Text → Cache → Result (Text × Cache)
  eat_left str bite fill =
      guarded str left bite fill (remember str left bite fill (fill ++ trim (drop bite str)))

  -- The halves of a text that is cut in its middle are eaten with no fill.
  unfoldable pub eat_center : Text → ℕ → Text → Cache → Result (Text × Cache)
  eat_center str bite fill = guarded str center bite fill (λ cache. do
    let kept = length str - length str / 2
    (head, cache1) ← eat_right (take kept str) (bite - bite / 2) [] cache
    (tail, cache2) ← eat_left (drop kept str) (bite / 2) [] cache1
    remember str center bite fill (trim head ++ fill ++ trim tail) cache2)

  -- `utils.eatStr`
  unfoldable pub eat_str : Text → Side → ℕ → Text → Cache → Result (Text × Cache)
  eat_str str right bite fill cache = eat_right str bite fill cache
  eat_str str left bite fill cache = eat_left str bite fill cache
  eat_str str center bite fill cache = eat_center str bite fill cache
  eat_str str (other t) bite fill cache =
      guarded str (other t) bite fill (λ c. err invalid_side) cache
