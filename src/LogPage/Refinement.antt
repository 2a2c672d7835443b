-- ===== src/LogPage/Refinement.antt =====
-- Whatever is done to the log page, it shows what is promised, and raises nothing.
use colt_core.Base.{◌-◌, ◌≡◌, refl, true, false, none, List, [], ◌∷◌, ◌==◌, length, All, All-drop}
use colt_core.LogPage.Messages.{Message, collect, last}
use colt_core.LogPage.State.{Log, Moment, done, messages, empty_log}
use colt_core.LogPage.Adding.{add_log_messages, add_all, max_scroll_top, remove_first, clear}
use colt_core.LogPage.Updating.{application_resize, scroll}
use colt_core.LogPage.Filtering.{filter}
use colt_core.LogPage.Actions.{
  Action, adds_messages, clears, removes_first, resizes, filters, runs_filter, runs_update, clicks,
  presses, scrolls, on_link, test_key, act, run,
}
use colt_core.LogPage.Shown.{Shown, nothing, show_all, effect, effects}
use colt_core.LogPage.Kept.{Runs, >>=-Runs, changed, NoItem}
use colt_core.LogPage.Sound.{IsJava}
use colt_core.LogPage.Steps.{IsSound-nil}
use colt_core.LogPage.Batches.{collect-last}
use colt_core.LogPage.Growing.{Fits, remove_first-Fits}
use colt_core.LogPage.Arriving.{add_all-Fits}
use colt_core.LogPage.Looking.{
  relook, clear-Fits, link_event-Fits, run_filter-Fits, run_update-Fits,
}
use colt_core.LogPage.Choosing.{click-Fits}
use colt_core.LogPage.Selecting.{key_down}
use colt_core.LogPage.Keys.{key_down-Fits}

-- The messages that the action brings are the application's, with no markup in their sources, and it is
-- not F5, which brings messages of the page's own script.
abbrev pub IsFromApplication : Action → Type 0
IsFromApplication (adds_messages now later ms) = All IsJava ms
IsFromApplication clears = Unit
IsFromApplication removes_first = Unit
IsFromApplication resizes = Unit
IsFromApplication filters = Unit
IsFromApplication (runs_filter now later) = Unit
IsFromApplication (runs_update now) = Unit
IsFromApplication (clicks now selects_text id) = Unit
IsFromApplication (presses now key_code) = (key_code == 116) ≡ false
IsFromApplication (scrolls top) = Unit
IsFromApplication (on_link id e) = Unit

add_log_messages-Fits :
    (now later : Moment) (ms : List Message) (log : Log) (s : Shown)
    → All IsJava ms
    → Fits NoItem log s
    → Runs (add_log_messages now later ms log) (λ log'. Fits NoItem log' (show_all (last 100 ms) s))
unfolding add_log_messages
add_log_messages-Fits now later ms log s h f =
    >>=-Runs (add_all now (collect [] ms) log) _
      (rw (collect-last ms)
        (add_all-Fits now (last 100 ms) log s (All-drop IsJava (length ms - 100) ms h) f))
      (λ log1 f1. (
        _,
        refl,
        changed (λ l. Fits NoItem l (show_all (last 100 ms) s))
            (log.scroll_top == max_scroll_top now) _ _
            (λ b.
              relook log1.queue log1.update_waits log1.filters (max_scroll_top later)
                log1.animations log1 _ f1)
            (λ b. f1),
      ))

pub act-Fits :
    (a : Action) (log : Log) (s : Shown)
    → IsFromApplication a
    → Fits NoItem log s
    → Runs (act a log) (λ log'. Fits NoItem log' (effect a s))
unfolding act effect application_resize filter scroll
act-Fits (adds_messages now later ms) log s h f = add_log_messages-Fits now later ms log s h f
act-Fits clears log s h f = (clear log, refl, clear-Fits log s f)
act-Fits removes_first log s h f = (remove_first log, refl, remove_first-Fits log s f)
act-Fits resizes log s h f =
    (_, refl, relook _ true log.filters log.scroll_top log.animations log s f)
act-Fits filters log s h f =
    (_, refl, relook log.queue log.update_waits true log.scroll_top log.animations log s f)
act-Fits (runs_filter now later) log s h f = run_filter-Fits now later log s f
act-Fits (runs_update now) log s h f = run_update-Fits now log s f
act-Fits (clicks now selects_text id) log s h f = click-Fits now selects_text id log s f
act-Fits (presses now key_code) log s h f =
    >>=-Runs (key_down now key_code log) (test_key now key_code)
      (key_down-Fits now key_code log s f)
      (λ log1 f1. unfold test_key in rw (h, test_key) (log1, refl, f1))
act-Fits (scrolls top) log s h f =
    (_, refl, relook log.queue true log.filters top log.animations log s f)
act-Fits (on_link id e) log s h f = (_, refl, link_event-Fits id e log s f)

pub run-Fits :
    (actions : List Action) (log : Log) (s : Shown)
    → All IsFromApplication actions
    → Fits NoItem log s
    → Runs (run actions log) (λ log'. Fits NoItem log' (effects actions s))
unfolding run effects
run-Fits [] log s h f = (log, refl, f)
run-Fits (a ∷ others) log s (h, hs) f =
    >>=-Runs (act a log) (run others) (act-Fits a log s h f)
      (λ log1 f1. run-Fits others log1 (effect a s) hs f1)

pub empty_log-Fits : Fits NoItem empty_log nothing
empty_log-Fits = record {
  ready = record { usable = tt; loaded = tt; usable_removed = tt };
  sound = IsSound-nil none 0;
  list = refl;
  count = refl;
}

-- Whatever the user, the timers and the application do, from the start of the page on, where F5 is not
-- pressed, all messages are the application's and their sources hold no markup: no exception is raised, trunk8.js included; the page shows, in order,
-- the messages that are promised, and its counter is the promised one.
pub run-effects :
    (actions : List Action)
    → All IsFromApplication actions
    → (log : Log) × (run actions empty_log ≡ done log)
      × (messages log.items ≡ (effects actions nothing).list)
      × (log.message_count ≡ (effects actions nothing).count)
run-effects actions h =
    let (log, e, f) = run-Fits actions empty_log nothing h empty_log-Fits in
    (log, e, f.list, f.count)
