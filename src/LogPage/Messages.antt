-- ===== src/LogPage/Messages.antt =====
-- Messages of the log page: `parseLogMessageObject`, the text of a message's link, and the part of a
-- batch that `addLogMessages` keeps.
use colt_core.Base.{
  ℕ, ◌-◌, Bool, true, not, ◌||◌, ◌&&◌, ◌==◌, Option, none, some, List, [], ◌∷◌, ◌++◌, Text, codes,
  text_eq, ltb, leb, if◌then◌else◌, length, drop,
}

-- A message of the application, whose level has a name, or an object of the page's own script.
pub data Message : Type 0 where
  java : Text → Text → Text → Message
  plain : Text → Text → Text → Bool → Message

-- `{message, level, source, syntax}`
pub record Parsed : Type 0 where
  pub message : Text
  pub level : Text
  pub source : Text
  pub syntax : Bool

-- The `switch` on the name of a level.
unfoldable pub level_of : Text → Text
level_of name =
    if text_eq name (codes "FATAL") || text_eq name (codes "ERROR") || text_eq name (codes "SYNTAX")
    then codes "error"
    else if text_eq name (codes "WARN")
    then codes "warning"
    else if text_eq name (codes "INFO")
    then codes "info"
    else []

-- `parseLogMessageObject`. An object of the page with no text is taken for one of the application, and
-- the call of its `getMessage` throws.
unfoldable pub parse : Message → Option Parsed
parse (java name message source) = some (record {
  message = message;
  level = level_of name;
  source = source;
  syntax = text_eq name (codes "SYNTAX");
})
parse (plain [] level source syntax) = none
parse (plain (c ∷ t) level source syntax) =
    some (record { message = c ∷ t; level = level; source = source; syntax = syntax })

-- The levels that a message's item has as a class name, next to `visible`.
unfoldable pub is_styled : Text → Bool
is_styled level =
    text_eq level (codes "warning") || text_eq level (codes "info") || text_eq level (codes "error")

-- What follows `w` at the start of a text.
abbrev after_prefix : Text → Text → Option Text
after_prefix [] t = some t
after_prefix (c ∷ w) [] = none
after_prefix (c ∷ w) (d ∷ t) =
    let rest = after_prefix w t in if text_eq (c ∷ []) (d ∷ []) then rest else none

-- `str.replace('http://', '')`
unfoldable pub without_http : Text → Text
without_http [] = []
without_http (c ∷ t) =
    let rest = without_http t in
    elim (after_prefix (codes "http://") (c ∷ t)) [ some u ↦ u | none ↦ c ∷ rest ]

-- `str.substr(str.length - 12, str.length)`; a start below 0 counts from the end, as far as that goes.
unfoldable pub last_twelve : Text → Text
last_twelve str =
    let n = length str in if leb 12 n then drop (n - 12) str else drop (n - (12 - n)) str

-- The text that a link shows for its source.
unfoldable pub link_text : Text → Text
link_text source =
    if ltb 13 (length source) then b'~' ∷ last_twelve (without_http source) else source

-- A source that shows, in an attribute and as a text, what it is where it is written into markup.
abbrev pub has_no_markup : Text → Bool
has_no_markup [] = true
has_no_markup (c ∷ t) =
    not (c == b'<' || (c == b'>' || (c == b'&' || c == b'"'))) && has_no_markup t

-- The greatest number of messages of a batch, `maxMessagesCount`.
abbrev pub max_messages_count : ℕ
max_messages_count = 100

abbrev pub tail {ℓ} : {A : Type ℓ} → List A → List A
tail [] = []
tail (x ∷ xs) = xs

-- The first loop of `addLogMessages`: `newMessages`, from the messages before.
unfoldable pub collect {ℓ} : {A : Type ℓ} → List A → List A → List A
collect kept [] = kept
collect kept (m ∷ ms) =
    let pushed = kept ++ m ∷ [] in
    collect (if ltb max_messages_count (length pushed) then tail pushed else pushed) ms

-- The last `n` elements.
abbrev pub last {ℓ} : {A : Type ℓ} → ℕ → List A → List A
last n xs = drop (length xs - n) xs
