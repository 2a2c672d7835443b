-- ===== src/LogPage/Growing.antt =====
-- The counter of the log page, and the messages that go from it.
use colt_core.Base.{
  ℕ, ◌≡◌, refl, ap, ◌∙◌, sym, subst, Option, some, none, inl, inr, List, [], ◌∷◌, ◌==◌, All,
  All-append, ℤ, sub1, add1, sub1-add1, ltz, Bool-cases,
}
use colt_core.LogPage.Messages.{tail}
use colt_core.LogPage.State.{Item, Log, messages}
use colt_core.LogPage.Adding.{
  detach, items_of, remove_pending, drop_first, remove_first, count_message,
}
use colt_core.LogPage.Shown.{Shown, without_syntax, counted}
use colt_core.LogPage.Kept.{Keeps, Usable, Loaded, IsReady, NoItem}
use colt_core.LogPage.Sound.{IsSound, IsSound-kept, messages-kept}
use colt_core.LogPage.Steps.{All-without_item, messages-taken, IsSound-taken, IsSound-tail}

-- The page shows what is promised; `except` is of an item that trunk8.js has not seen.
pub record Fits (except : ℕ → Type 0) (log : Log) (s : Shown) : Type 0 where
  pub ready : IsReady except log
  pub sound : IsSound log.items log.syntax_error log.next_id
  pub list : messages log.items ≡ s.list
  pub count : log.message_count ≡ s.count

pub Fits-kept :
    {except : ℕ → Type 0} {log log' : Log} {s : Shown}
    → Keeps log log'
    → IsReady NoItem log'
    → Fits except log s
    → Fits NoItem log' s
Fits-kept {log = log} {log' = log'} k r f = record {
  ready = r;
  sound =
      subst (λ (n : ℕ). IsSound log'.items log'.syntax_error n) (sym k.next_id)
        (subst (λ (e : Option ℕ). IsSound log'.items e log.next_id) (sym k.syntax_error)
          (IsSound-kept log.items log'.items k.items f.sound));
  list = messages-kept log.items log'.items k.items ∙ f.list;
  count = k.message_count ∙ f.count;
}

pub detach-Usable : (it : Item) → Usable (detach it)
detach-Usable it el e = cc

items_of-Usable : (id : ℕ) (its : List Item) → All Usable (items_of id its)
unfolding items_of
items_of-Usable id [] = tt
items_of-Usable id (it ∷ its) = elim (Bool-cases (it.id == id)) [
  | inl e ↦ rw e (detach-Usable it, items_of-Usable id its)
  | inr e ↦ rw e (items_of-Usable id its)
]

pub remove_pending-Fits :
    (o : Option ℕ) (log : Log) (s : Shown)
    → log.syntax_error ≡ o
    → Fits NoItem log s
    → (remove_pending o log).syntax_error ≡ none
      × Fits NoItem
          (remove_pending o log)
          (record { count = s.count; list = without_syntax s.list })
remove_pending-Fits none log s e f = (
  e,
  record {
    ready = f.ready;
    sound = f.sound;
    list =
        messages-taken none log.items
          (subst (λ (o : Option ℕ). IsSound log.items o log.next_id) e f.sound).pending
        ∙ ap without_syntax f.list;
    count = f.count;
  },
)
remove_pending-Fits (some id) log s e f =
    let sound = subst (λ (o : Option ℕ). IsSound log.items o log.next_id) e f.sound in
    (
      refl,
      record {
        ready = record {
          usable = All-without_item Usable id log.items f.ready.usable;
          loaded = All-without_item (Loaded NoItem) id log.items f.ready.loaded;
          usable_removed =
              All-append Usable (items_of id log.items) log.removed (items_of-Usable id log.items)
                f.ready.usable_removed;
        };
        sound = IsSound-taken (some id) log.items log.next_id sound;
        list = messages-taken (some id) log.items sound.pending ∙ ap without_syntax f.list;
        count = f.count;
      },
    )

drop_first-Fits :
    (except : ℕ → Type 0) (its : List Item) (log : Log) (s : Shown)
    → log.items ≡ its
    → Fits except log s
    → Fits except
        (record (drop_first its log) { message_count = sub1 (drop_first its log).message_count })
        (record { count = sub1 s.count; list = tail s.list })
drop_first-Fits except [] log s e f = record {
  ready = record {
    usable = f.ready.usable;
    loaded = f.ready.loaded;
    usable_removed = f.ready.usable_removed;
  };
  sound = f.sound;
  list = ap messages e ∙ sym (ap tail (sym f.list ∙ ap messages e));
  count = ap sub1 f.count;
}
drop_first-Fits except (it ∷ its) log s e f = record {
  ready = record {
    usable = (subst (All Usable) e f.ready.usable).1;
    loaded = (subst (All (Loaded except)) e f.ready.loaded).1;
    usable_removed = (detach-Usable it, f.ready.usable_removed);
  };
  sound =
      IsSound-tail (it ∷ its) log.syntax_error log.next_id
        (subst (λ (l : List Item). IsSound l log.syntax_error log.next_id) e f.sound);
  list = ap tail (sym (ap messages e) ∙ f.list);
  count = ap sub1 f.count;
}

pub remove_first-Fits :
    (log : Log) (s : Shown)
    → Fits NoItem log s
    → Fits NoItem (remove_first log) (record { count = sub1 s.count; list = tail s.list })
unfolding remove_first
remove_first-Fits log s f = drop_first-Fits NoItem log.items log s refl f

pub count_message-Fits :
    (except : ℕ → Type 0) (log : Log) (s : Shown)
    → Fits except log s
    → Fits except (count_message log) (counted s)
unfolding count_message remove_first
count_message-Fits except log s f = elim (Bool-cases (ltz 100 s.count)) [
  | inl e ↦
      rw (ap (ltz 100) f.count ∙ e, e)
        (subst
          (λ (n : ℤ).
            Fits except (remove_first (record log { message_count = add1 log.message_count }))
              (record { count = n; list = tail s.list }))
          (sub1-add1 s.count)
          (drop_first-Fits except log.items (record log { message_count = add1 log.message_count })
            (record { count = add1 s.count; list = s.list }) refl (one_more f)))
  | inr e ↦ rw (ap (ltz 100) f.count ∙ e, e) (one_more f)
]
  where
    one_more :
        Fits except log s
        → Fits except
            (record log { message_count = add1 log.message_count })
            (record { count = add1 s.count; list = s.list })
    one_more f = record {
      ready = record {
        usable = f.ready.usable;
        loaded = f.ready.loaded;
        usable_removed = f.ready.usable_removed;
      };
      sound = f.sound;
      list = f.list;
      count = ap add1 f.count;
    }
