-- ===== src/LogPage/Queue.antt =====
-- The queue of the log page is worked off.
use colt_core.Base.{
  ℕ, ◌+◌, ◌-◌, ◌*◌, ◌≤◌, ◌≡◌, refl, ap, subst, true, Option, some, none, inl, inr, List, [], ◌∷◌,
  ◌++◌, arith, length, length-append, All, codes, Option-cases,
}
use colt_core.Trunk8.{Result, ok, err, Cache}
use colt_core.Trunk8.Methods.{Holder, Call, named, Answer, chained, settings}
use colt_core.LogPage.State.{
  Item, Log, Moment, Outcome, done, thrown, unfinished, ◌>>=◌, find_item, empty_log,
}
use colt_core.LogPage.Cutting.{settle, put_in_items, put_in_removed, trunk8_item, trunk8_items}
use colt_core.LogPage.Updating.{split_queue, fill_up, update_each, run_update, scroll}
use colt_core.LogPage.Actions.{Action, scrolls, runs_update, act, run}
use colt_core.LogPage.Shown.{Shown}
use colt_core.LogPage.Kept.{Runs, >>=-Runs, changed, NoItem}
use colt_core.LogPage.Growing.{Fits}
use colt_core.LogPage.Looking.{run_update-Fits, relook}
use colt_core.LogPage.Refinement.{IsFromApplication}
use colt_core.LogPage.Promises.{reached-Fits}

length-split_queue :
    (now : Moment) (top : ℕ) (its : List Item) (queue : List (List ℕ))
    → length (split_queue now top its queue).0 + length (split_queue now top its queue).1
      ≤ length queue
unfolding split_queue
length-split_queue now top its [] = omega arith
length-split_queue now top its (ids ∷ queue) = ground (arith, length-split_queue now top its queue)

-- What is moved out of `nextUpdate`: as many as 50 are more than the elements that are in view.
length-fill_up :
    (need next : List (List ℕ)) → length (fill_up need next).1 ≡ length next - (50 - length need)
unfolding fill_up
length-fill_up need [] = omega arith
length-fill_up need (ids ∷ next) =
    ground (arith, length-fill_up (need ++ ids ∷ []) next, length-append need (ids ∷ []))

-- If no exception is raised, the queue is this one.
abbrev HasQueue : List (List ℕ) → Outcome → Type 0
HasQueue q (done log) = log.queue ≡ q
HasQueue q (thrown log) = Unit
HasQueue q unfinished = Unit

settle-HasQueue :
    (q : List (List ℕ)) (put : Holder → Cache → Log) (log : Log) (o : Option (Result Answer))
    → log.queue ≡ q
    → ((h : Holder) (c : Cache) → (put h c).queue ≡ q)
    → HasQueue q (settle put log o)
settle-HasQueue q put log none e h = tt
settle-HasQueue q put log (some (err x)) e h = tt
settle-HasQueue q put log (some (ok (settings s))) e h = e
settle-HasQueue q put log (some (ok (chained y c))) e h = h y c

trunk8_item-HasQueue :
    (now : Moment) (call : Call) (id : ℕ) (log : Log)
    → HasQueue log.queue (trunk8_item now call id log)
trunk8_item-HasQueue now call id log = elim (Option-cases (find_item id log.items)) [
  | inr (it, e) ↦
      unfold trunk8_item in
      rw (e, trunk8_item) (settle-HasQueue log.queue (put_in_items id log) log _ refl (λ h c. refl))
  | inl e ↦ elim (Option-cases (find_item id log.removed)) [
    | inr (it, f) ↦
        unfold trunk8_item in
        rw (e, f, trunk8_item)
          (settle-HasQueue log.queue (put_in_removed id log) log _ refl (λ h c. refl))
    | inl f ↦ unfold trunk8_item in rw (e, f, trunk8_item) refl
  ]
]

>>=-HasQueue :
    (q : List (List ℕ)) (o : Outcome) (f : Log → Outcome)
    → HasQueue q o
    → ((log : Log) → log.queue ≡ q → HasQueue q (f log))
    → HasQueue q (o >>= f)
>>=-HasQueue q (done log) f h k = k log h
>>=-HasQueue q (thrown log) f h k = tt
>>=-HasQueue q unfinished f h k = tt

trunk8_items-HasQueue :
    (now : Moment) (call : Call) (ids : List ℕ) (log : Log) (q : List (List ℕ))
    → log.queue ≡ q
    → HasQueue q (trunk8_items now call ids log)
unfolding trunk8_items
trunk8_items-HasQueue now call [] log q e = e
trunk8_items-HasQueue now call (id ∷ ids) log q e =
    >>=-HasQueue q (trunk8_item now call id log) (trunk8_items now call ids)
      (subst (λ r. HasQueue r (trunk8_item now call id log)) e
        (trunk8_item-HasQueue now call id log))
      (λ log1 e1. trunk8_items-HasQueue now call ids log1 q e1)

update_each-HasQueue :
    (now : Moment) (need : List (List ℕ)) (log : Log) (q : List (List ℕ))
    → log.queue ≡ q
    → HasQueue q (update_each now need log)
unfolding update_each
update_each-HasQueue now [] log q e = e
update_each-HasQueue now (ids ∷ need) log q e =
    >>=-HasQueue q (trunk8_items now (named (codes "update") none) ids log) (update_each now need)
      (trunk8_items-HasQueue now (named (codes "update") none) ids log q e)
      (λ log1 e1. update_each-HasQueue now need log1 q e1)

run_update-HasQueue :
    (now : Moment) (log : Log)
    → log.update_waits ≡ true
    → HasQueue
        ((let parts = split_queue now log.scroll_top (log.items ++ log.removed) log.queue in
          fill_up parts.0 parts.1).1)
        (run_update now log)
unfolding run_update
run_update-HasQueue now log on =
    changed (HasQueue _) log.update_waits _ _ (λ b. update_each-HasQueue now _ _ _ refl) (λ b. cc)

-- A round of the interval, which is set: no exception, and fifty elements less, or none left.
round :
    (now : Moment) (log : Log) (s : Shown)
    → log.update_waits ≡ true
    → Fits NoItem log s
    → Runs
        (run_update now log)
        (λ log'. Fits NoItem log' s × (length log'.queue ≤ length log.queue - 50))
round now log s on f =
    let (log', e, f') = run_update-Fits now log s f in
    let parts = split_queue now log.scroll_top (log.items ++ log.removed) log.queue in
    let queue = subst (HasQueue (fill_up parts.0 parts.1).1) e (run_update-HasQueue now log on) in
    (
      log',
      e,
      (
        f',
        omega (
          arith,
          ap length queue,
          length-fill_up parts.0 parts.1,
          length-split_queue now log.scroll_top (log.items ++ log.removed) log.queue,
        ),
      ),
    )

-- Each time, the user scrolls, and then the interval runs.
abbrev pub scrolling : List (ℕ × Moment) → List Action
scrolling [] = []
scrolling ((top, now) ∷ rounds) = scrolls top ∷ runs_update now ∷ scrolling rounds

worked_off :
    (rounds : List (ℕ × Moment)) (log : Log) (s : Shown)
    → Fits NoItem log s
    → length log.queue ≤ 50 * length rounds
    → Runs (run (scrolling rounds) log) (λ log'. log'.queue ≡ [])
unfolding run act scroll
worked_off [] log s f h = (log, refl, no_elements log.queue (omega (arith, h)))
  where
    no_elements : (q : List (List ℕ)) → length q ≤ 0 → q ≡ []
    no_elements [] h = refl
    no_elements (x ∷ q) h = absurd (omega (arith, h))
worked_off ((top, now) ∷ rounds) log s f h =
    >>=-Runs (run_update now (scroll top log)) (run (scrolling rounds))
      (round now (scroll top log) s refl
        (relook log.queue true log.filters top log.animations log s f))
      (λ log1 (f1, less). worked_off rounds log1 s f1 (omega (arith, h, less)))

-- In a state that the page comes to, where F5 is not pressed, all messages are the application's and their
-- sources hold no markup: if the user scrolls as
-- often as there are fifties of queued elements, or more often, and the interval runs each time, then no
-- exception is raised and no element is left in the queue, wherever the items stand.
pub run-scrolling :
    (actions : List Action) (rounds : List (ℕ × Moment)) (log : Log)
    → All IsFromApplication actions
    → run actions empty_log ≡ done log
    → length log.queue ≤ 50 * length rounds
    → Runs (run (scrolling rounds) log) (λ log'. log'.queue ≡ [])
run-scrolling actions rounds log h e few =
    worked_off rounds log _ (reached-Fits actions log h e) few
