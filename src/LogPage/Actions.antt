-- ===== src/LogPage/Actions.antt =====
-- What the application and the user do to the log page, and the timers that run. The application calls
-- `addLogMessages`, `clear`, `removeFirst`, `applicationResize` and `filter`.
use colt_core.Base.{ℕ, Bool, false, Text, codes, ◌==◌, if◌then◌else◌, List, [], ◌∷◌, ◌++◌}
use colt_core.Tipsy.{Options, Event, happen, own_title}
use colt_core.LogPage.Messages.{Message, plain}
use colt_core.LogPage.State.{Log, Moment, Outcome, done, ◌>>=◌, change}
use colt_core.LogPage.Adding.{add_log_messages, add_all, remove_first, clear}
use colt_core.LogPage.Selecting.{click, key_down}
use colt_core.LogPage.Updating.{run_update, application_resize, scroll}
use colt_core.LogPage.Filtering.{filter, run_filter}

-- `{gravity: 'e', delayIn: 120, offset: 12}`
abbrev pub link_options : Options
link_options = record { delay_in = 120; delay_out = 0; fallback = []; source = own_title }

-- An event on the link of an item, or of the timers of its tooltip.
unfoldable pub link_event : ℕ → Event → Log → Log
link_event id e log = change id (λ it. record it { tooltip = happen link_options e it.tooltip }) log

-- `test`, whose messages are objects of the page's own script: the message, the level and the source.
abbrev sample : Text → Text → Text → Message
sample message level source = plain message level source false

unfoldable pub test_messages : List Message
test_messages =
    sample (codes "mojito-dispatcher: Dispatcher created") (codes "warning")
      (codes "http://s7.addthis.com/js/250/addthis_widget.js")
    ∷ sample (codes "mojito-dispatcher: Dispatcher paused") (codes "error")
        (codes "http://s7.addthis.com/js/250/addthis_widget.js")
    ∷ sample (codes "mojito-client: Executing \"@TodoMojit/getAll\" on the client") [] []
    ∷ sample
        (codes "Get http://localhost:8666/static/T 200 OK 56ms consectetur "
          ++ codes "adipisicing elit. Aliquam")
        [] []
    ∷ sample
        (codes "mojito-client: Attached 0 event delegates sequi nisi necessitatibus "
          ++ codes "expedita suscipit eius fugiat recusandae beatae aut.")
        [] []
    ∷ sample
        (codes "mojito-client: Mojito Client State: active. Velit, veritatis suscipit "
          ++ codes "saepe expedita iusto officiis odit nesciunt esse sapiente.")
        [] []
    ∷ sample
        (codes "Uncaught ReferenceError: Ajax is not defined [VM] dashboard (56):1 "
          ++ codes "(anonymous function) [VM] dashboard (58):1 jQuery.globalEval "
          ++ codes "(anonymous function) e.extend.each f.fn.extend.domManip<br> "
          ++ codes "f.fn.extend.append<br> MissingE.utilities.ajaxEvents.run<br> "
          ++ codes "MissingE.utilities.ajaxEvents.init<br> (anonymous function)<br> "
          ++ codes "(anonymous function)")
        (codes "error") (codes "mySource.js")
    ∷ sample
        (codes "mojito-client: Mojito Client State: active. Velit, veritatis suscipit "
          ++ codes "saepe expedita iusto officiis odit nesciunt esse sapiente.")
        (codes "info") []
    ∷ sample
        (codes "mojito-client: Mojito Client State: active. Velit, veritatis suscipit "
          ++ codes "saepe expedita iusto officiis odit nesciunt esse sapiente.")
        (codes "info") []
    ∷ []

unfoldable pub test : Moment → Log → Outcome
test now log = add_all now test_messages log

-- The other handler of `keydown`: F5 (116) calls `test` seven times.
unfoldable pub test_key : Moment → ℕ → Log → Outcome
test_key now key_code log =
    if key_code == 116
    then test now log >>= test now >>= test now >>= test now >>= test now >>= test now >>= test now
    else done log

-- Each with what the browser measures then; `adds_messages` and `runs_filter` change the page before
-- they measure it again.
pub data Action : Type 0 where
  adds_messages : Moment → Moment → List Message → Action
  clears removes_first resizes filters : Action
  runs_filter : Moment → Moment → Action
  runs_update : Moment → Action
  clicks : Moment → Bool → ℕ → Action
  presses : Moment → ℕ → Action
  scrolls : ℕ → Action
  on_link : ℕ → Event → Action

-- `clear` is also what `codeUpdate` does.
unfoldable pub act : Action → Log → Outcome
act (adds_messages now later ms) log = add_log_messages now later ms log
act clears log = done (clear log)
act removes_first log = done (remove_first log)
act resizes log = done (application_resize log)
act filters log = done (filter log)
act (runs_filter now later) log = run_filter now later log
act (runs_update now) log = run_update now log
act (clicks now selects_text id) log = click now selects_text id log
act (presses now key_code) log = key_down now key_code log >>= test_key now key_code
act (scrolls top) log = done (scroll top log)
act (on_link id e) log = done (link_event id e log)

unfoldable pub run : List Action → Log → Outcome
run [] log = done log
run (a ∷ as_) log = act a log >>= run as_
