-- ===== src/Dotdotdot/Content.antt =====
-- The helpers of dotdotdot.js on texts and on the browser's measures.
pub mod Endings
use colt_core.Base.{
  ℕ, zero, suc, ◌+◌, ◌-◌, Bool, true, false, ◌&&◌, ◌||◌, not, Option, none, some, List, [], ◌∷◌,
  ◌++◌, Text, codes, ◌==◌, ltb, if◌then◌else◌, map, length, text_eq,
}
use colt_core.Dotdotdot.Forest.{Forest, end, text, element}

-- What the script calls of the browser and of jQuery: `innerHeight()` of the inner element with the
-- given content, `innerText` of an element's content, and whether `$.inArray` finds a character.
pub record Layout : Type 0 where
  pub height : Forest → ℕ
  pub inner_text : Forest → Text
  pub in_array : ℕ → Text → Bool

pub data Wrap : Type 0 where
  word letter children : Wrap

pub data Watch : Type 0 where
  off window element_size : Watch

-- The options, with `lastCharacter` in two fields that hold characters. `after` is an element.
pub record Options : Type 0 where
  pub ellipsis : Text
  pub wrap : Wrap
  pub fallback_to_letter : Bool
  pub remove : Text
  pub no_ellipsis : Text
  pub tolerance : ℕ
  pub fixed_height : Option ℕ
  pub watch : Watch
  pub window_resize_fix : Bool
  pub debug : Bool

-- `$.fn.dotdotdot.defaults` and `defaultArrays`.
abbrev pub defaults : Options
defaults = record {
  ellipsis = codes "... ";
  wrap = word;
  fallback_to_letter = true;
  remove = b' ' ∷ 12288 ∷ codes ",;.!?";
  no_ellipsis = [];
  tolerance = 0;
  fixed_height = none;
  watch = off;
  window_resize_fix = true;
  debug = false;
}

-- A separator of words; `none` is the empty text, which separates letters.
abbrev pub Separator : Type 0
Separator = Option ℕ

unfoldable pub contains : ℕ → Text → Bool
contains c [] = false
contains c (d ∷ t) = d == c || contains c t

-- The variables `space` and `separator` of `ellipsisElement`.
unfoldable pub separator : Wrap → Text → Separator
unfolding contains
separator letter t = none
separator _ t = some (if contains b' ' t then b' ' else 12288)

-- `split` at a character: the word read so far is the first argument.
unfoldable pub split_at : ℕ → Text → Text → List Text
split_at c cur [] = cur ∷ []
split_at c cur (d ∷ t) = elim (d == c) [
  | true ↦ cur ∷ split_at c [] t
  | false ↦ split_at c (cur ++ d ∷ []) t
]

unfoldable pub split : Separator → Text → List Text
unfolding split_at
split none t = map (λ c. c ∷ []) t
split (some c) t = split_at c [] t

abbrev pub glue : Separator → Text → Text
glue none t = t
glue (some c) t = c ∷ t

unfoldable pub join : Separator → List Text → Text
join sep [] = []
join sep (t ∷ []) = t
join sep (t ∷ u ∷ ts) = t ++ glue sep (join sep (u ∷ ts))

-- `textArr[0]`; there always is one where the code reads it.
abbrev pub first : List Text → Text
first [] = []
first (t ∷ ts) = t

unfoldable pub last : Text → Option ℕ
last [] = none
last (c ∷ t) = let rest = last t in elim t [ [] ↦ some c | d ∷ u ↦ rest ]

module _ (layout : Layout) (opts : Options) where
  -- The loop of `addEllipsis`: the text without the characters at its end that `remove` holds.
  unfoldable pub strip_end : Text → Text
  strip_end [] = []
  strip_end (c ∷ t) =
      let rest = strip_end t in
      elim rest [ [] ↦ if layout.in_array c opts.remove then [] else c ∷ [] | d ∷ u ↦ c ∷ d ∷ u ]

  -- Whether the text ends with a character of `noEllipsis`.
  unfoldable pub ends_sentence : Text → Bool
  unfolding last
  ends_sentence t = elim (last t) [ none ↦ false | some c ↦ layout.in_array c opts.no_ellipsis ]

  unfoldable pub add_ellipsis : Text → Text
  unfolding strip_end ends_sentence
  add_ellipsis t = if ends_sentence (strip_end t) then strip_end t else strip_end t ++ opts.ellipsis

  -- `getTextContent` of the first node; the empty text where there is none.
  unfoldable pub get_text_content : Forest → Text
  get_text_content end = []
  get_text_content (text t rest) = t
  get_text_content (element tag kids rest) = layout.inner_text kids

  of_text : Text → Forest
  of_text [] = end
  of_text (c ∷ t) = text (c ∷ t) end

  -- `setTextContent` of the first node: a node whose text is empty keeps it.
  unfoldable pub set_text_content : Text → Forest → Forest
  unfolding of_text
  set_text_content t end = end
  set_text_content t (text u rest) = elim u [ [] ↦ text [] rest | c ∷ v ↦ text t rest ]
  set_text_content t (element tag kids rest) = elim (layout.inner_text kids) [
    | [] ↦ element tag kids rest
    | c ∷ v ↦ element tag (of_text t) rest
  ]
