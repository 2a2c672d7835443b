-- ===== src/LogPage/Promises.antt =====
-- What the log page shows, in each state that it can come to.
use colt_core.Base.{
  suc, ◌+◌, ◌++◌, map, pos, pos_part, neg_part, ltz, ◌≤◌, ◌≡◌, refl, ap, ◌∙◌, sym, subst, List, [],
  ◌∷◌, arith, length, All,
}
use colt_core.LogPage.Messages.{Message, last}
use colt_core.LogPage.State.{
  Item, Log, Moment, Outcome, done, thrown, unfinished, messages, selected, empty_log,
}
use colt_core.LogPage.Actions.{Action, adds_messages, run}
use colt_core.LogPage.Shown.{Shown, nothing, show, show_all, effect, effects}
use colt_core.LogPage.Kept.{Runs, NoItem}
use colt_core.LogPage.Sound.{IsJava}
use colt_core.LogPage.Growing.{Fits}
use colt_core.LogPage.Refinement.{IsFromApplication, run-Fits, empty_log-Fits}
use colt_core.LogPage.Ring.{missed_all, effects-IsBounded, show_all-full, show_all-errors, IsError}
use colt_core.LogPage.History.{ledger, new_ledger, nothing-Follows, BringsNoSyntax, effects-Follows}

length-messages : (its : List Item) → length (messages its) ≡ length its
length-messages [] = refl
length-messages (it ∷ its) = ap suc (length-messages its)

-- Whatever is done to the page from its start on, where F5 is not pressed, all messages are the
-- application's and their sources hold no markup: the counter is never above 101. It is lower than the
-- number of items by no more than the number of times that `removeFirst` has found no item since the page
-- was last cleared, so there are at most that many items more than 101.
pub run-length :
    (actions : List Action)
    → All IsFromApplication actions
    → (log : Log) × (run actions empty_log ≡ done log)
      × (pos_part log.message_count ≤ 101)
      × (length log.items + neg_part log.message_count
          ≤ pos_part log.message_count + missed_all actions nothing 0)
      × (length log.items ≤ 101 + missed_all actions nothing 0)
run-length actions h =
    let (log, e, f) = run-Fits actions empty_log nothing h empty_log-Fits in
    let (few, low) = effects-IsBounded actions 0 nothing (omega arith) in
    let same = length-messages log.items in
    let shown = ap length f.list in
    let up = ap pos_part f.count in
    let down = ap neg_part f.count in
    (
      log,
      e,
      omega (arith, low, up),
      omega (arith, few, up, down, same, shown),
      omega (arith, few, low, same, shown),
    )

-- Where F5 is not pressed, all messages are the application's, their sources hold no markup and none is a
-- syntax error, the page shows, in order, the last 101 of those that have come since it was last cleared,
-- of each batch its last 100, less those that `removeFirst` has taken, the oldest then shown each time; and
-- it shows one more for each time that `removeFirst` has found no item since then.
pub run-ledger :
    (actions : List Action)
    → All IsFromApplication actions
    → All BringsNoSyntax actions
    → (log : Log) × (run actions empty_log ≡ done log)
      × (messages log.items
          ≡ last (101 + (ledger actions new_ledger).missed) (ledger actions new_ledger).history)
run-ledger actions h k =
    let (log, e, f) = run-Fits actions empty_log nothing h empty_log-Fits in
    let (bounded, l) = effects-Follows actions new_ledger nothing k nothing-Follows in
    (log, e, f.list ∙ l.last_of)

-- In every state that the page comes to, where F5 is not pressed, all messages are the application's and
-- their sources hold no markup, at most one item is selected.
pub run-selected :
    (actions : List Action)
    → All IsFromApplication actions
    → (log : Log) × (run actions empty_log ≡ done log) × (length (selected log.items) ≤ 1)
run-selected actions h =
    let (log, e, f) = run-Fits actions empty_log nothing h empty_log-Fits in
    (log, e, f.sound.single)

abbrev done_or : Log → Outcome → Log
done_or log (done l) = l
done_or log (thrown l) = log
done_or log unfinished = log

-- A page that is reached shows what it shows.
pub reached-Fits :
    (actions : List Action) (log : Log)
    → All IsFromApplication actions
    → run actions empty_log ≡ done log
    → Fits NoItem log (record { count = log.message_count; list = messages log.items })
reached-Fits actions log h e =
    let (log', e', f) = run-Fits actions empty_log nothing h empty_log-Fits in
    let same : log' ≡ log = ap (done_or log) (sym e' ∙ e) in
    subst (λ (l : Log). Fits NoItem l (record { count = l.message_count; list = messages l.items }))
      same (record { ready = f.ready; sound = f.sound; list = refl; count = refl })

no_messages : (its : List Item) → messages its ≡ [] → its ≡ []
no_messages [] e = refl
no_messages (it ∷ its) e = cc

-- A batch for each message, with what the browser measures then.
abbrev pub one_by_one : List (Moment × Message) → List Action
one_by_one [] = []
one_by_one ((now, m) ∷ rest) = adds_messages now now (m ∷ []) ∷ one_by_one rest

abbrev pub second : Moment × Message → Message
second (now, m) = m

effects-one_by_one :
    (ms : List (Moment × Message)) (others : List Action) (s : Shown)
    → effects (one_by_one ms ++ others) s ≡ effects others (show_all (map second ms) s)
unfolding effects effect show_all
effects-one_by_one [] others s = refl
effects-one_by_one ((now, m) ∷ ms) others s = effects-one_by_one ms others (show m s)

one_by_one-IsFromApplication :
    (ms : List (Moment × Message)) (a : Action)
    → All IsJava (map second ms)
    → IsFromApplication a
    → All IsFromApplication (one_by_one ms ++ a ∷ [])
one_by_one-IsFromApplication [] a h k = (k, tt)
one_by_one-IsFromApplication ((now, m) ∷ ms) a (j, h) k =
    ((j, tt), one_by_one-IsFromApplication ms a h k)

length-second : (ms : List (Moment × Message)) → length (map second ms) ≡ length ms
length-second [] = refl
length-second (p ∷ ms) = ap suc (length-second ms)

-- Where 102 or more syntax errors of the application come to an empty page, one after the other, each of
-- which takes away the item of the one before but not its place in the counter, the counter is 101, and
-- the page shows nothing, neither the last of them nor any message of the batch that comes then; no source
-- holds markup.
pub run-emptied :
    (errors : List (Moment × Message)) (now later : Moment) (ms : List Message)
    → All IsJava (map second errors)
    → All IsError (map second errors)
    → 102 ≤ length errors
    → All IsJava ms
    → Runs
        (run (one_by_one errors ++ adds_messages now later ms ∷ []) empty_log)
        (λ log. (log.items ≡ []) × (log.message_count ≡ pos 101))
run-emptied errors now later ms h wrong many app =
    let actions = one_by_one errors ++ adds_messages now later ms ∷ [] in
    let (log, e, f) =
      run-Fits actions empty_log nothing (one_by_one-IsFromApplication errors _ h app)
        empty_log-Fits in
    let after = show_all (map second errors) nothing in
    let (none_left, full) =
      show_all-errors (map second errors) 0 nothing wrong tt refl (omega arith)
        (omega (arith, many, length-second errors)) in
    let (still_none, still_full) =
      show_all-full (last 100 ms) after (ap (ltz 100) full) none_left in
    let same : effects actions nothing ≡ show_all (last 100 ms) after =
      effects-one_by_one errors _ nothing ∙ unfold effects in unfold effect in refl in
    (
      log,
      e,
      (
        no_messages log.items (f.list ∙ ap (λ (s : Shown). s.list) same ∙ still_none),
        f.count ∙ ap (λ (s : Shown). s.count) same ∙ still_full ∙ full,
      ),
    )
