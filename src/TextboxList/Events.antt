-- ===== src/TextboxList/Events.antt =====
-- The event table of jquery-textboxlist.js: `addEvent`, `removeEvent` and `fireEvent`. A function of
-- the script is known by a number, and the table maps an event's name to the functions bound to it.
pub mod Laws
use colt_core.Base.{
  ℕ, zero, suc, ◌+◌, Bool, true, false, ◌||◌, Option, none, some, List, [], ◌∷◌, ◌++◌, Text, length,
  get_elem?, ◌==◌, text_eq, if◌then◌else◌,
}

abbrev pub Table : Type 0
Table = List (Text × List ℕ)

-- What the callback of `$.each` compares by `===`: the index that it is handed, and a function.
pub data Operand : Type 0 where
  index : ℕ → Operand
  function : ℕ → Operand

strict_eq : Operand → Operand → Bool
strict_eq (index i) (index j) = i == j
strict_eq (function f) (function g) = f == g
strict_eq _ _ = false

-- The loop of `addEvent`, from the index `i` on: `$.each(events[type], function (f) { … f === fn … })`.
bound_already : ℕ → List ℕ → ℕ → Bool
bound_already i [] fn = false
bound_already i (h ∷ hs) fn = strict_eq (index i) (function fn) || bound_already (i + 1) hs fn

unfoldable pub handlers : Table → Text → Option (List ℕ)
handlers [] type = none
handlers ((t, hs) ∷ events) type = if text_eq t type then some hs else handlers events type

-- `events[type] = hs`
assign : Table → Text → List ℕ → Table
assign [] type hs = (type, hs) ∷ []
assign ((t, old) ∷ events) type hs =
    if text_eq t type then (t, hs) ∷ events else (t, old) ∷ assign events type hs

-- `events[type]`, made empty where it is undefined.
unfoldable pub bound : Table → Text → List ℕ
unfolding handlers
bound events type = elim (handlers events type) [ none ↦ [] | some hs ↦ hs ]

unfoldable pub add_event : Text → ℕ → Table → Table
unfolding bound bound_already strict_eq assign
add_event type fn events =
    let hs = bound events type in
    assign events type (if bound_already 0 hs fn then hs else hs ++ fn ∷ [])

erase_idx : List ℕ → ℕ → List ℕ
erase_idx [] i = []
erase_idx (h ∷ hs) zero = hs
erase_idx (h ∷ hs) (suc i) = h ∷ erase_idx hs i

-- `for (var i = hs.length; i--; i) if (hs[i] === fn) hs.splice(i, 1)`, with `i` rounds to go.
remove_from : ℕ → ℕ → List ℕ → List ℕ
unfolding erase_idx
remove_from zero fn hs = hs
remove_from (suc i) fn hs =
    let hit : Bool = elim (get_elem? hs i) [ none ↦ false | some h ↦ h == fn ] in
    remove_from i fn (if hit then erase_idx hs i else hs)

unfoldable pub remove_event : Text → ℕ → Table → Table
unfolding handlers remove_from assign
remove_event type fn events = elim (handlers events type) [
  | none ↦ events
  | some hs ↦ assign events type (remove_from (length hs) fn hs)
]

-- `fireEvent` with no delay: every function bound to the event is run, in order. `run f s` is the
-- effect of the function `f` on the state.
module _ {ℓ} {S : Type ℓ} (run : ℕ → S → S) where
  unfoldable pub run_all : List ℕ → S → S
  run_all [] s = s
  run_all (h ∷ hs) s = run_all hs (run h s)

  unfoldable pub fire_event : Table → Text → S → S
  unfolding run_all handlers
  fire_event events type s = elim (handlers events type) [ none ↦ s | some hs ↦ run_all hs s ]

set_timers : List ℕ → ℕ → List (ℕ × ℕ)
set_timers [] delay = []
set_timers (h ∷ hs) delay = (delay, h) ∷ set_timers hs delay

-- `fireEvent` with a delay sets a timer for each function.
pub schedule_event : Table → Text → ℕ → List (ℕ × ℕ) → List (ℕ × ℕ)
unfolding handlers set_timers
schedule_event events type delay timers = elim (handlers events type) [
  | none ↦ timers
  | some hs ↦ timers ++ set_timers hs delay
]
