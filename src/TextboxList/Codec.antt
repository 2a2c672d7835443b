-- ===== src/TextboxList/Codec.antt =====
-- The options `encode` and `decode` of jquery-textboxlist.js: a list of values as one text.
pub mod RoundTrip
use colt_core.Base.{
  ℕ, ◌≡◌, refl, Bool, true, false, ◌&&◌, Option, none, some, List, [], ◌∷◌, ◌++◌, Text, codes, ◌==◌,
  if◌then◌else◌,
}
use colt_core.TextboxList.Host.{Host, Value}

abbrev pub comma : ℕ
comma = b','

abbrev pub space : ℕ
space = b' '

-- `chk` on a text, null or undefined: neither is true, nor is the empty text.
abbrev pub chk : Option Text → Bool
chk none = false
chk (some []) = false
chk (some (c ∷ t)) = true

-- The text that `v` stands for: `chk(v[0]) ? v[0] : v[1]`.
abbrev pub label : Value → Text
label v = elim v.id [ none ↦ v.plain | some t ↦ if chk (some t) then t else v.plain ]

skip_spaces : Text → Text
skip_spaces [] = []
skip_spaces (c ∷ t) = elim (c == space) [ true ↦ skip_spaces t | false ↦ c ∷ t ]

-- `t.replace(/, */, '')`: without the first comma and the spaces behind it.
strip : Text → Text
unfolding skip_spaces
strip [] = []
strip (c ∷ t) = elim (c == comma) [ true ↦ skip_spaces t | false ↦ c ∷ strip t ]

encode_text : Text → Option Text
unfolding strip
encode_text t = if chk (some t) then some (strip t) else none

-- The callback of `$.map`.
encode_value : Value → Option Text
unfolding encode_text
encode_value v = encode_text (label v)

unfoldable pub join : List Text → Text
join [] = []
join (t ∷ []) = t
join (t ∷ u ∷ ts) = t ++ comma ∷ space ∷ join (u ∷ ts)

-- `$.grep` keeps what is not undefined, which is every text that `$.map` returns.
unfoldable pub encode : Host → List Value → Text
unfolding encode_value join
encode host vs = join (host.map_values encode_value vs)

-- `o.split(/, */)`: the piece read so far, and whether the spaces behind a comma are being skipped.
pieces : Text → Text → Bool → List Text
pieces [] cur skipping = cur ∷ []
pieces (c ∷ o) cur skipping = elim (c == comma) [
  | true ↦ cur ∷ pieces o [] true
  | false ↦ elim (skipping && c == space) [
    | true ↦ pieces o cur true
    | false ↦ pieces o (cur ++ c ∷ []) false
  ]
]

unfoldable pub decode : Text → List Text
unfolding pieces
decode o = pieces o [] false

-- `if (v)` in `setValues`: the pieces that are not empty.
unfoldable pub filled : List Text → List Text
filled [] = []
filled ([] ∷ ts) = filled ts
filled ((c ∷ t) ∷ ts) = (c ∷ t) ∷ filled ts

-- The box that `add(v)` makes of a piece: `[id, plain, html]` with no id and no html.
abbrev pub plain_value : Text → Value
plain_value t = record { id = none; plain = t; html = none }

decode_words : decode (codes " a,  b c,") ≡ codes " a" ∷ codes "b c" ∷ [] ∷ []
unfolding decode
decode_words = refl
