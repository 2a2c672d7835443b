-- ===== src/LogPage/Shown.antt =====
-- What the log page promises to show: the messages, as if they were kept in a list with a counter.
use colt_core.Base.{
  ℤ, pos, add1, sub1, ltz, Bool, List, [], ◌∷◌, ◌++◌, codes, text_eq, if◌then◌else◌,
}
use colt_core.LogPage.Messages.{Message, java, plain, tail, last}
use colt_core.LogPage.Actions.{
  Action, adds_messages, clears, removes_first, resizes, filters, runs_filter, runs_update, clicks,
  presses, scrolls, on_link,
}

-- The messages that the page shows, the oldest first, and its counter.
pub record Shown : Type 0 where
  pub count : ℤ
  pub list : List Message

abbrev pub nothing : Shown
nothing = record { count = pos 0; list = [] }

abbrev pub is_syntax : Message → Bool
is_syntax (java name message source) = text_eq name (codes "SYNTAX")
is_syntax (plain message level source syntax) = syntax

unfoldable pub without_syntax : List Message → List Message
without_syntax [] = []
without_syntax (m ∷ ms) = let rest = without_syntax ms in if is_syntax m then rest else m ∷ rest

-- The counter goes up to 101; from there on, the oldest message goes instead.
abbrev pub counted : Shown → Shown
counted s =
    if ltz 100 s.count
    then record { count = s.count; list = tail s.list }
    else record { count = add1 s.count; list = s.list }

-- A message comes, and a syntax error goes.
unfoldable pub show : Message → Shown → Shown
show m s = counted (record { count = s.count; list = without_syntax s.list ++ m ∷ [] })

unfoldable pub show_all : List Message → Shown → Shown
show_all [] s = s
show_all (m ∷ ms) s = show_all ms (show m s)

-- Of a batch, the last hundred come; all else but `clear` and `removeFirst` leaves the messages.
unfoldable pub effect : Action → Shown → Shown
effect (adds_messages now later ms) s = show_all (last 100 ms) s
effect clears s = nothing
effect removes_first s = record { count = sub1 s.count; list = tail s.list }
effect resizes s = s
effect filters s = s
effect (runs_filter now later) s = s
effect (runs_update now) s = s
effect (clicks now selects_text id) s = s
effect (presses now key_code) s = s
effect (scrolls top) s = s
effect (on_link id e) s = s

unfoldable pub effects : List Action → Shown → Shown
effects [] s = s
effects (a ∷ others) s = effects others (effect a s)
