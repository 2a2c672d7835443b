-- ===== src/LogPage/Examples.antt =====
-- The theorems on the log page at concrete inputs.
use colt_core.Base.{
  ℕ, zero, suc, ◌+◌, ◌≤◌, ◌≡◌, refl, ap, ◌∙◌, sym, true, false, some, List, [], ◌∷◌, Text, codes,
  length, map, pos, pos_part, neg_part, ◌++◌, arith, All, ==_refl,
}
use colt_core.Trunk8.Examples.{narrow}
use colt_core.LogPage.Messages.{
  Message, java, parse, collect, last, link_text, without_http, last_twelve,
}
use colt_core.LogPage.State.{
  Item, Log, Moment, Outcome, done, thrown, unfinished, find_item, modify_item, messages, selected,
  empty_log,
}
use colt_core.Trunk8.Truncate.{init, truncate, by_width, to_fit}
use colt_core.Trunk8.Methods.{trunk8, call_init, update_settings}
use colt_core.LogPage.Cutting.{dotdotdot, trunk8_items, trunk8_item}
use colt_core.LogPage.Selecting.{click}
use colt_core.LogPage.Adding.{
  add_log_messages, add_all, add_log_message, remove_syntax_error, count_message, make_item,
  hide_new,
}
use colt_core.LogPage.Actions.{
  Action, adds_messages, clears, removes_first, runs_update, clicks, presses, filters, runs_filter,
  act, run,
}
use colt_core.LogPage.Shown.{nothing, effect, effects, show, show_all, without_syntax}
use colt_core.LogPage.Kept.{Runs}
use colt_core.LogPage.Sound.{IsJava}
use colt_core.LogPage.Refinement.{IsFromApplication, run-effects}
use colt_core.LogPage.History.{ledger, entry, take_first, new_ledger}
use colt_core.LogPage.Promises.{
  run-length, run-ledger, run-selected, run-emptied, one_by_one, second,
}
use colt_core.LogPage.Ring.{missed_all, IsError}
use colt_core.LogPage.Selection.{IsToggled, click-IsToggled}
use colt_core.LogPage.Queue.{scrolling, run-scrolling}

-- Each item is ten pixels high, below the one before it.
abbrev today : Moment
today = record {
  browser = λ id. narrow;
  place = λ id. some (id + id, 2);
  offset_top = λ id. id + id;
  document_height = 40;
  window_height = 20;
  message_visible = λ id. true;
  text = λ t. t;
  escape = λ t. t;
  attribute = λ t. t;
}

abbrev built : Message
built = java (codes "INFO") (codes "Built in 5 s") (codes "build")

abbrev wrong : Message
wrong = java (codes "SYNTAX") (codes "No such name") (codes "main.js")

-- Messages come, one of them an error that is mended, and the user looks at the first.
abbrev morning : List Action
morning =
    adds_messages today today (built ∷ wrong ∷ [])
    ∷ clicks today false 0
    ∷ runs_update today
    ∷ filters
    ∷ runs_filter today today
    ∷ presses today 40
    ∷ removes_first
    ∷ adds_messages today today (built ∷ [])
    ∷ []

abbrev morning_app : All IsFromApplication morning
morning_app = ((refl, (refl, tt)), (tt, (tt, (tt, (tt, (refl, (tt, ((refl, tt), tt))))))))

run-effects_example :
    (log : Log) × (run morning empty_log ≡ done log)
    × (messages log.items ≡ (effects morning nothing).list)
    × (log.message_count ≡ (effects morning nothing).count)
run-effects_example = run-effects morning morning_app

run-length_example :
    (log : Log) × (run morning empty_log ≡ done log)
    × (pos_part log.message_count ≤ 101)
    × (length log.items + neg_part log.message_count
        ≤ pos_part log.message_count + missed_all morning nothing 0)
    × (length log.items ≤ 101 + missed_all morning nothing 0)
run-length_example = run-length morning morning_app

run-selected_example :
    (log : Log) × (run morning empty_log ≡ done log) × (length (selected log.items) ≤ 1)
run-selected_example = run-selected morning morning_app

abbrev quiet : List Action
quiet =
    adds_messages today today (built ∷ built ∷ [])
    ∷ clears
    ∷ removes_first
    ∷ adds_messages today today (built ∷ [])
    ∷ clicks today false 2
    ∷ []

abbrev quiet_app : All IsFromApplication quiet
quiet_app = ((refl, (refl, tt)), (tt, (tt, ((refl, tt), (tt, tt)))))

run-ledger_example :
    (log : Log) × (run quiet empty_log ≡ done log)
    × (messages log.items
        ≡ last (101 + (ledger quiet new_ledger).missed) (ledger quiet new_ledger).history)
run-ledger_example =
    run-ledger quiet quiet_app ((refl, (refl, tt)), (tt, (tt, ((refl, tt), (tt, tt)))))

-- `removeFirst` has found no item once.
quiet_missed : (ledger quiet new_ledger).missed ≡ 1
unfolding ledger entry take_first
quiet_missed = refl

-- The page after the quiet actions, with one message.
abbrev quiet_log : Log
quiet_log = (run-effects quiet quiet_app).0

quiet_log_shows : messages quiet_log.items ≡ built ∷ []
unfolding effects effect show_all show without_syntax
quiet_log_shows = (run-effects quiet quiet_app).2

first_found :
    (its : List Item) (m : Message) (ms : List Message)
    → messages its ≡ m ∷ ms
    → (it : Item) × (find_item it.id its ≡ some it)
unfolding find_item
first_found [] m ms e = cc
first_found (it ∷ its) m ms e = (it, rw (==_refl it.id) refl)

abbrev shown_item : Item
shown_item = (first_found quiet_log.items built [] quiet_log_shows).0

click-IsToggled_example : Runs (click today false shown_item.id quiet_log) (IsToggled shown_item)
click-IsToggled_example =
    click-IsToggled quiet quiet_log today shown_item.id shown_item quiet_app
      (run-effects quiet quiet_app).1 (first_found quiet_log.items built [] quiet_log_shows).1

-- The user mends `n` errors of syntax.
unfoldable errors : ℕ → List (Moment × Message)
errors zero = []
errors (suc n) = (today, wrong) ∷ errors n

errors-IsJava : (n : ℕ) → All IsJava (map second (errors n))
unfolding errors
errors-IsJava zero = tt
errors-IsJava (suc n) = (refl, errors-IsJava n)

errors-IsError : (n : ℕ) → All IsError (map second (errors n))
unfolding errors
errors-IsError zero = tt
errors-IsError (suc n) = (refl, errors-IsError n)

length-errors : (n : ℕ) → length (errors n) ≡ n
unfolding errors
length-errors zero = refl
length-errors (suc n) = ap suc (length-errors n)

run-emptied_example :
    Runs
      (run (one_by_one (errors 102) ++ adds_messages today today (built ∷ []) ∷ []) empty_log)
      (λ log. (log.items ≡ []) × (log.message_count ≡ pos 101))
run-emptied_example =
    run-emptied (errors 102) today today (built ∷ []) (errors-IsJava 102) (errors-IsError 102)
      (omega (arith, length-errors 102)) (refl, tt)

abbrev queue_of : Outcome → List (List ℕ)
queue_of (done log) = log.queue
queue_of (thrown log) = log.queue
queue_of unfinished = []

-- Every text fits.
abbrev roomy : Moment
roomy = record today { browser = λ id. record narrow { height = λ t. 0 } }

abbrev two_messages : List Action
two_messages = adds_messages roomy roomy (built ∷ built ∷ []) ∷ []

abbrev two_app : All IsFromApplication two_messages
two_app = ((refl, (refl, tt)), tt)

two_queued : queue_of (run two_messages empty_log) ≡ (0 ∷ []) ∷ (1 ∷ []) ∷ []
unfolding run act add_log_messages add_all add_log_message remove_syntax_error collect parse
    dotdotdot trunk8_items trunk8_item find_item count_message hide_new make_item trunk8 call_init
    init truncate by_width update_settings to_fit modify_item
two_queued = refl

run-scrolling_example :
    Runs
      (run (scrolling ((5, today) ∷ [])) (run-effects two_messages two_app).0)
      (λ log. log.queue ≡ [])
run-scrolling_example =
    let (log, e, shown, counted) = run-effects two_messages two_app in
    run-scrolling two_messages ((5, today) ∷ []) log two_app e
      (omega (arith, ap length (ap queue_of (sym e) ∙ two_queued)))

abbrev address : Text
address = codes "http://a.org/tool.js"

-- Of seven characters that are left, two are lost.
short_link : link_text (codes "http://abcdefg") ≡ codes "~cdefg"
unfolding link_text without_http last_twelve
short_link = refl
