-- ===== src/LogPage/Adding.antt =====
-- `addLogMessage`, `addLogMessages`, `removeFirst`, `clear` and `updateVisible` of the log page.
use colt_core.Base.{
  ℕ, ◌+◌, ◌-◌, Bool, true, false, Option, none, some, List, [], ◌∷◌, ◌++◌, map, ◌==◌, pos, add1,
  sub1, ltz, if◌then◌else◌,
}
use colt_core.Tipsy.{create}
use colt_core.LogPage.Messages.{
  Message, java, plain, Parsed, parse, is_styled, link_text, max_messages_count, collect,
}
use colt_core.LogPage.State.{Item, Log, Moment, Outcome, done, thrown, ◌>>=◌, without_item}
use colt_core.LogPage.Cutting.{dotdotdot}

-- `$(item).remove()` also takes the data of trunk8.js from the paragraph.
abbrev pub detach : Item → Item
detach it = record it { paragraph = record it.paragraph { element = none } }

-- The items of `id` among those of the list, as they are once they are removed.
unfoldable pub items_of : ℕ → List Item → List Item
items_of id [] = []
items_of id (it ∷ its) =
    let rest = items_of id its in if it.id == id then detach it ∷ rest else rest

abbrev pub remove_pending : Option ℕ → Log → Log
remove_pending none log = log
remove_pending (some id) log = record log {
  items = without_item id log.items;
  removed = items_of id log.items ++ log.removed;
  syntax_error = none;
}

-- `lastMesageSyntaxError.remove()`, which does nothing to an item that is gone already.
unfoldable pub remove_syntax_error : Log → Log
remove_syntax_error log = remove_pending log.syntax_error log

abbrev pub drop_first : List Item → Log → Log
drop_first [] log = log
drop_first (it ∷ its) log = record log { items = its; removed = detach it ∷ log.removed }

-- `removeFirst`, which lowers the counter of an empty page too.
unfoldable pub remove_first : Log → Log
remove_first log =
    let dropped = drop_first log.items log in
    record dropped { message_count = sub1 dropped.message_count }

-- The item of a message, with its text, its link and the link's tooltip. The source is written into the
-- markup of the item as it is: this is the item of a source that holds no markup.
unfoldable pub make_item : Moment → ℕ → Message → Parsed → Item
make_item now id m p = record {
  id = id;
  message = m;
  level = p.level;
  is_visible = is_styled p.level;
  is_selected = false;
  is_hidden = false;
  paragraph = record { html = now.escape p.message; title = none; element = none };
  link = link_text (now.text p.source);
  tooltip = create (some (now.attribute p.source)) none;
}

-- `updateVisible` on an item that does not stand in the page yet: it is not hidden, so all that can
-- happen is that it is.
unfoldable pub hide_new : Moment → Item → Item
hide_new now it = elim it.message [
  | java name message source ↦
      if now.message_visible it.id then it else record it { is_hidden = true; is_visible = false }
  | plain message level source syntax ↦ it
]

-- `$(".log").append(logItem)`, where `lastMesageSyntaxError` is set before.
abbrev pub append : Item → Bool → Log → Log
append it syntax log = record log {
  items = log.items ++ it ∷ [];
  syntax_error = if syntax then some it.id else log.syntax_error;
  next_id = it.id + 1;
}

-- `if(messageCount++ > maxMessagesCount) removeFirst()`
unfoldable pub count_message : Log → Log
count_message log =
    let counted = record log { message_count = add1 log.message_count } in
    if ltz max_messages_count log.message_count then remove_first counted else counted

-- `addLogMessage`
unfoldable pub add_log_message : Moment → Message → Log → Outcome
add_log_message now m log =
    let log1 = remove_syntax_error log in
    elim (parse m) [
      | none ↦ thrown log1
      | some p ↦
          dotdotdot now (log1.next_id ∷ [])
            (count_message (append (hide_new now (make_item now log1.next_id m p)) p.syntax log1))
    ]

unfoldable pub add_all : Moment → List Message → Log → Outcome
add_all now [] log = done log
add_all now (m ∷ ms) log = add_log_message now m log >>= add_all now ms

-- `maxScrollTop`
abbrev pub max_scroll_top : Moment → ℕ
max_scroll_top now = now.document_height - now.window_height

-- `addLogMessages`; the page is measured `now` and, with the messages in it, `later`.
unfoldable pub add_log_messages : Moment → Moment → List Message → Log → Outcome
add_log_messages now later ms log =
    let at_end = log.scroll_top == max_scroll_top now in
    add_all now (collect [] ms) log >>= λ added.
    done (if at_end then record added { scroll_top = max_scroll_top later } else added)

-- `clear`
unfoldable pub clear : Log → Log
clear log = record log {
  items = [];
  removed = map detach log.items ++ log.removed;
  message_count = pos 0;
}
