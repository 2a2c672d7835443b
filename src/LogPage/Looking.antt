-- ===== src/LogPage/Looking.antt =====
-- What the timers and the filter of the log page do to it: nothing to the messages.
use colt_core.Base.{
  ℕ, ◌≡◌, ◌≢◌, refl, Bool, true, false, none, List, [], ◌∷◌, map, All, All-append, codes,
}
use colt_core.Tipsy.{Event, happen}
use colt_core.Trunk8.Methods.{named}
use colt_core.ScrollTo.{Animation}
use colt_core.LogPage.Messages.{Message, java, plain}
use colt_core.LogPage.State.{Item, Log, Moment, change}
use colt_core.LogPage.Cutting.{trunk8_items, dotdotdot}
use colt_core.LogPage.Adding.{detach, clear, max_scroll_top}
use colt_core.LogPage.Updating.{update_each, run_update}
use colt_core.LogPage.Filtering.{
  show, hide, Change, stays, shows, hides, fails, change_by, change_of, update_visible,
  update_visible_all, any_change, run_filter,
}
use colt_core.LogPage.Actions.{link_options, link_event}
use colt_core.LogPage.Shown.{Shown, nothing}
use colt_core.LogPage.Kept.{
  Runs, >>=-Runs, bare, bare-modify_item, changed, Usable, Loaded, NoItem, All-map, All-modify_item,
}
use colt_core.LogPage.Cuts.{items-Runs, update-Runs, dotdotdot-Runs}
use colt_core.LogPage.Sound.{IsJava}
use colt_core.LogPage.Steps.{IsSound-nil}
use colt_core.LogPage.Growing.{Fits, Fits-kept, detach-Usable}

-- The queue, the intervals, the scroll position and the animations do not matter.
pub relook :
    (queue : List (List ℕ)) (waits filters : Bool) (scroll_top : ℕ) (animations : List Animation)
    (log : Log) (s : Shown)
    → Fits NoItem log s
    → Fits NoItem
        (record log {
          queue = queue;
          update_waits = waits;
          filters = filters;
          scroll_top = scroll_top;
          animations = animations;
        })
        s
relook queue waits filters scroll_top animations log s f = record {
  ready = record {
    usable = f.ready.usable;
    loaded = f.ready.loaded;
    usable_removed = f.ready.usable_removed;
  };
  sound = f.sound;
  list = f.list;
  count = f.count;
}

pub clear-Fits : (log : Log) (s : Shown) → Fits NoItem log s → Fits NoItem (clear log) nothing
unfolding clear
clear-Fits log s f = record {
  ready = record {
    usable = tt;
    loaded = tt;
    usable_removed =
        All-append Usable (map detach log.items) log.removed
          (All-map Usable Usable detach log.items (λ it u. detach-Usable it) f.ready.usable)
          f.ready.usable_removed;
  };
  sound = IsSound-nil log.syntax_error log.next_id;
  list = refl;
  count = refl;
}

-- A change of an item that leaves its identity, its message, its selection and its paragraph.
pub change-Fits :
    (id : ℕ) (g : Item → Item) (log : Log) (s : Shown)
    → ((it : Item) → bare (g it) ≡ bare it)
    → ((it : Item) → (g it).paragraph ≡ it.paragraph)
    → ((it : Item) → (g it).id ≡ it.id)
    → Fits NoItem log s
    → Fits NoItem (change id g log) s
change-Fits id g log s same text same_id f =
    Fits-kept
      (record {
        items = bare-modify_item id g log.items same;
        message_count = refl;
        syntax_error = refl;
        next_id = refl;
      })
      (record {
        usable =
            All-modify_item Usable Usable id g log.items (λ it e u. rw (text it) u) (λ it n u. u)
              f.ready.usable;
        loaded =
            All-modify_item (Loaded NoItem) (Loaded NoItem) id g log.items
              (λ it e l. rw (text it) l) (λ it n l. l) f.ready.loaded;
        usable_removed =
            All-modify_item Usable Usable id g log.removed (λ it e u. rw (text it) u) (λ it n u. u)
              f.ready.usable_removed;
      })
      f

pub link_event-Fits :
    (id : ℕ) (e : Event) (log : Log) (s : Shown)
    → Fits NoItem log s
    → Fits NoItem (link_event id e log) s
unfolding link_event
link_event-Fits id e log s f =
    change-Fits id (λ it. record it { tooltip = happen link_options e it.tooltip }) log s
      (λ it. refl) (λ it. refl) (λ it. refl) f

-- `dotdotdot` on items, in a page that shows what is promised.
pub dotdotdot-Fits :
    (now : Moment) (ids : List ℕ) (log : Log) (s : Shown)
    → Fits NoItem log s
    → Runs (dotdotdot now ids log) (λ log'. Fits NoItem log' s)
dotdotdot-Fits now ids log s f =
    let (log', e, (k, r)) = dotdotdot-Runs now ids log f.ready in (log', e, Fits-kept k r f)

change_by-java : (m : Message) (v h : Bool) → IsJava m → change_by m v h ≢ fails
change_by-java (java name message source) true true a e = cc
change_by-java (java name message source) true false a e = cc
change_by-java (java name message source) false true a e = cc
change_by-java (java name message source) false false a e = cc
change_by-java (plain message level source syntax) v h a e = elim a [ ]

module _ (now : Moment) where
  update_by :
      (c : Change) (it : Item) (log : Log) (s : Shown)
      → c ≢ fails
      → change_of now it ≡ c
      → Fits NoItem log s
      → Runs (update_visible now it log) (λ log'. Fits NoItem log' s)
  update_by stays it log s n e f = unfold update_visible in rw (e, update_visible) (log, refl, f)
  update_by shows it log s n e f =
      unfold update_visible in
      rw (e, update_visible)
        (dotdotdot-Fits now (it.id ∷ []) (change it.id show log) s
          (change-Fits it.id show log s (λ x. refl) (λ x. refl) (λ x. refl) f))
  update_by hides it log s n e f =
      unfold update_visible in
      rw (e, update_visible)
        (
          change it.id hide log,
          refl,
          change-Fits it.id hide log s (λ x. refl) (λ x. refl) (λ x. refl) f,
        )
  update_by fails it log s n e f = absurd (n refl)

  update_visible_all-Fits :
      (its : List Item) (log : Log) (s : Shown)
      → All (λ it. IsJava it.message) its
      → Fits NoItem log s
      → Runs (update_visible_all now its log) (λ log'. Fits NoItem log' s)
  unfolding update_visible_all
  update_visible_all-Fits [] log s h f = (log, refl, f)
  update_visible_all-Fits (it ∷ its) log s (h, hs) f =
      >>=-Runs (update_visible now it log) (update_visible_all now its)
        (update_by (change_of now it) it log s
          (unfold change_of in change_by-java it.message (now.message_visible it.id) it.is_hidden h)
          refl f)
        (λ log1 f1. update_visible_all-Fits its log1 s hs f1)

  pub run_filter-Fits :
      (later : Moment) (log : Log) (s : Shown)
      → Fits NoItem log s
      → Runs (run_filter now later log) (λ log'. Fits NoItem log' s)
  unfolding run_filter
  run_filter-Fits later log s f =
      changed (λ o. Runs o (λ log'. Fits NoItem log' s)) log.filters _ _
        (λ on.
          >>=-Runs (update_visible_all now log.items log) _
            (update_visible_all-Fits log.items log s f.sound.application f)
            (λ log1 f1. (
              _,
              refl,
              changed (λ l. Fits NoItem l s) (any_change now log.items) _ _
                  (λ b.
                    relook log1.queue log1.update_waits log1.filters (max_scroll_top later)
                      log1.animations log1 s f1)
                  (λ b. f1),
            )))
        (λ off. (log, refl, f))

  update_each-Fits :
      (need : List (List ℕ)) (log : Log) (s : Shown)
      → Fits NoItem log s
      → Runs (update_each now need log) (λ log'. Fits NoItem log' s)
  unfolding update_each
  update_each-Fits [] log s f = (log, refl, f)
  update_each-Fits (ids ∷ need) log s f =
      >>=-Runs (trunk8_items now (named (codes "update") none) ids log) (update_each now need)
        (items-Runs now (named (codes "update") none) ids log (λ id l r. update-Runs now id l r)
          f.ready)
        (λ log1 (k, r). update_each-Fits need log1 s (Fits-kept k r f))

  pub run_update-Fits :
      (log : Log) (s : Shown)
      → Fits NoItem log s
      → Runs (run_update now log) (λ log'. Fits NoItem log' s)
  unfolding run_update
  run_update-Fits log s f =
      changed (λ o. Runs o (λ log'. Fits NoItem log' s)) log.update_waits _ _
        (λ on.
          update_each-Fits _ _ s (relook _ false log.filters log.scroll_top log.animations log s f))
        (λ off. (log, refl, f))
