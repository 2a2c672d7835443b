-- ===== src/LogPage/State.antt =====
-- The state of the log page: its items, their texts and links, and what its script keeps.
use colt_core.Base.{
  ℕ, ℤ, pos, Bool, true, false, Option, none, some, List, [], ◌∷◌, map, Text, ◌==◌, if◌then◌else◌,
}
use colt_core.Trunk8.{Browser, Cache}
use colt_core.Trunk8.Methods.{Holder}
use colt_core.Tipsy.{Tooltip}
use colt_core.ScrollTo.{Animation}
use colt_core.LogPage.Messages.{Message}

-- An item of the list: its data `message`, the classes `visible` and `selected`, whether its `display`
-- is `none`, its paragraph with what trunk8.js keeps for it, the text of its link and the link's tooltip.
-- Elements are known by numbers.
pub record Item : Type 0 where
  pub id : ℕ
  pub message : Message
  pub level : Text
  pub is_visible : Bool
  pub is_selected : Bool
  pub is_hidden : Bool
  pub paragraph : Holder
  pub link : Text
  pub tooltip : Tooltip

-- The page. `items` are the children of the list, `removed` the items that were taken from it, which
-- the script may still name. An element of `queue` (`forUpdateDot`) is a jQuery object, as the list of
-- its elements; `update_waits` and `filters` say whether the intervals are set. `cache` is that of
-- `eatStr`, and `animations` are those that `scrollTo` started.
pub record Log : Type 0 where
  pub items : List Item
  pub removed : List Item
  pub message_count : ℤ
  pub syntax_error : Option ℕ
  pub queue : List (List ℕ)
  pub update_waits : Bool
  pub filters : Bool
  pub scroll_top : ℕ
  pub cache : Cache
  pub next_id : ℕ
  pub animations : List Animation

-- The page as it is loaded.
abbrev pub empty_log : Log
empty_log = record {
  items = [];
  removed = [];
  message_count = pos 0;
  syntax_error = none;
  queue = [];
  update_waits = false;
  filters = false;
  scroll_top = 0;
  cache = [];
  next_id = 0;
  animations = [];
}

-- What the browser and the application answer at the time of a call: what trunk8.js measures of the
-- paragraph of an item, the items' `offset().top` and height (`none` is no offset), the window, and
-- `getVisible()` of the messages of the application. `text` is the text that markup shows, `escape` the
-- markup of a text, and `attribute` what an attribute is whose value is written into markup.
pub record Moment : Type 0 where
  pub browser : ℕ → Browser
  pub place : ℕ → Option (ℕ × ℕ)
  pub offset_top : ℕ → ℕ
  pub document_height : ℕ
  pub window_height : ℕ
  pub message_visible : ℕ → Bool
  pub text : Text → Text
  pub escape : Text → Text
  pub attribute : Text → Text

-- What a call comes to: the page after it, or as it is when an exception is raised. `unfinished` is a
-- bound of trunk8.js's search that is too small.
pub data Outcome : Type 0 where
  done thrown : Log → Outcome
  unfinished : Outcome

infixl 5 ◌>>=◌
abbrev pub ◌>>=◌ : Outcome → (Log → Outcome) → Outcome
done log >>= f = f log
thrown log >>= f = thrown log
unfinished >>= f = unfinished

unfoldable pub find_item : ℕ → List Item → Option Item
find_item id [] = none
find_item id (it ∷ its) = let rest = find_item id its in if it.id == id then some it else rest

unfoldable pub modify_item : ℕ → (Item → Item) → List Item → List Item
modify_item id f [] = []
modify_item id f (it ∷ its) = (if it.id == id then f it else it) ∷ modify_item id f its

unfoldable pub without_item : ℕ → List Item → List Item
without_item id [] = []
without_item id (it ∷ its) =
    let rest = without_item id its in if it.id == id then rest else it ∷ rest

-- A change of an item, wherever it stands.
abbrev pub change : ℕ → (Item → Item) → Log → Log
change id f log = record log {
  items = modify_item id f log.items;
  removed = modify_item id f log.removed;
}

-- `$('.selected')`, the selected items of the page.
unfoldable pub selected : List Item → List ℕ
selected [] = []
selected (it ∷ its) = let rest = selected its in if it.is_selected then it.id ∷ rest else rest

abbrev pub messages : List Item → List Message
messages its = map (λ it. it.message) its

-- `updateDotdotdot`: the interval is set anew.
abbrev pub update_dotdotdot : Log → Log
update_dotdotdot log = record log { update_waits = true }
