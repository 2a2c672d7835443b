-- ===== src/LogPage/Choosing.antt =====
-- What selecting items of the log page does to it, and the items that are chosen.
use colt_core.Base.{
  ℕ, ◌≡◌, refl, ◌∙◌, Bool, true, false, some, none, inl, inr, List, [], ◌∷◌, ◌==◌, ==_refl, arith,
  All, Bool-cases, Option-cases, codes,
}
use colt_core.Trunk8.Methods.{named}
use colt_core.LogPage.State.{Item, Log, Moment, find_item, modify_item, selected, change}
use colt_core.LogPage.Cutting.{trunk8_item, dotdotdot}
use colt_core.LogPage.Selecting.{mark, unselect_all, select_log_element, click}
use colt_core.LogPage.Shown.{Shown}
use colt_core.LogPage.Kept.{
  Runs, >>=-Runs, changed, Usable, Loaded, NoItem, All-map, All-modify_item, find_item-All,
}
use colt_core.LogPage.Cuts.{revert-Runs}
use colt_core.LogPage.Marking.{messages-mark, messages-unselect_all, IsSound-unmark, IsSound-mark}
use colt_core.LogPage.Growing.{Fits, Fits-kept}
use colt_core.LogPage.Looking.{dotdotdot-Fits}

-- The item is found in the list by its identity.
abbrev pub IsIn : List Item → Item → Type 0
IsIn its it = (x : Item) × (find_item it.id its ≡ some x)

-- The list goes on, and what is found in the rest of it is found.
find_item-behind :
    (id : ℕ) (y : Item) (its : List Item) (x : Item)
    → find_item id its ≡ some x
    → (z : Item) × (find_item id (y ∷ its) ≡ some z)
unfolding find_item
find_item-behind id y its x e = elim (Bool-cases (y.id == id)) [
  | inl b ↦ (y, rw b refl)
  | inr b ↦ (x, rw b e)
]

pub IsIn-own : (its : List Item) → All (IsIn its) its
unfolding find_item
IsIn-own [] = tt
IsIn-own (it ∷ its) = ((it, rw (==_refl it.id) refl), behind its (IsIn-own its))
  where
    behind : (rest : List Item) → All (IsIn its) rest → All (IsIn (it ∷ its)) rest
    behind [] h = tt
    behind (x ∷ rest) ((y, e), h) = (find_item-behind x.id it its y e, behind rest h)

pub find_item-marked :
    (id : ℕ) (its : List Item) (x : Item)
    → find_item id its ≡ some x
    → (y : Item) × (find_item id (modify_item id (mark true) (unselect_all its)) ≡ some y)
unfolding find_item modify_item
find_item-marked id [] x e = cc
find_item-marked id (it ∷ its) x e = elim (Bool-cases (it.id == id)) [
  | inl b ↦ (mark true it, ground (arith, b))
  | inr b ↦ let (y, f) = find_item-marked id its x (ground (arith, b)) in (y, ground (arith, b, f))
]

module _ (now : Moment) where
  -- The item is not selected any more.
  pub unmark-Fits :
      (id : ℕ) (log : Log) (s : Shown)
      → Fits NoItem log s
      → Fits NoItem (change id (mark false) log) s
  unmark-Fits id log s f = record {
    ready = record {
      usable =
          All-modify_item Usable Usable id (mark false) log.items (λ it e u. u) (λ it n u. u)
            f.ready.usable;
      loaded =
          All-modify_item (Loaded NoItem) (Loaded NoItem) id (mark false) log.items (λ it e l. l)
            (λ it n l. l) f.ready.loaded;
      usable_removed =
          All-modify_item Usable Usable id (mark false) log.removed (λ it e u. u) (λ it n u. u)
            f.ready.usable_removed;
    };
    sound = IsSound-unmark id log.items log.syntax_error log.next_id f.sound;
    list = messages-mark false id log.items ∙ f.list;
    count = f.count;
  }

  -- The item is the one that is selected.
  pub mark-Fits :
      (id : ℕ) (x : Item) (log : Log) (s : Shown)
      → find_item id log.items ≡ some x
      → Fits NoItem log s
      → Fits NoItem (change id (mark true) (record log { items = unselect_all log.items })) s
  mark-Fits id x log s found f = record {
    ready = record {
      usable =
          All-modify_item Usable Usable id (mark true) (unselect_all log.items) (λ it e u. u)
            (λ it n u. u) (All-map Usable Usable (mark false) log.items (λ it u. u) f.ready.usable);
      loaded =
          All-modify_item (Loaded NoItem) (Loaded NoItem) id (mark true) (unselect_all log.items)
            (λ it e l. l) (λ it n l. l)
            (All-map (Loaded NoItem) (Loaded NoItem) (mark false) log.items (λ it l. l)
              f.ready.loaded);
      usable_removed =
          All-modify_item Usable Usable id (mark true) log.removed (λ it e u. u) (λ it n u. u)
            f.ready.usable_removed;
    };
    sound = IsSound-mark id log.items x log.syntax_error log.next_id found f.sound;
    list =
        messages-mark true id (unselect_all log.items) ∙ messages-unselect_all log.items ∙ f.list;
    count = f.count;
  }

  pub select-Fits :
      (it : Item) (log : Log) (s : Shown)
      → IsIn log.items it
      → Fits NoItem log s
      → Runs (select_log_element now it log) (λ log'. Fits NoItem log' s)
  unfolding select_log_element
  select-Fits it log s (x, found) f =
      changed (λ o. Runs o (λ log'. Fits NoItem log' s)) it.is_selected _ _
        (λ on. dotdotdot-Fits now (it.id ∷ []) _ s (unmark-Fits it.id log s f))
        (λ off.
          let marked = change it.id (mark true) (record log { items = unselect_all log.items }) in
          let f1 = mark-Fits it.id x log s found f in
          let (y, there) = find_item-marked it.id log.items x found in
          >>=-Runs (trunk8_item now (named (codes "revert") none) it.id marked)
            (dotdotdot now (selected log.items)) (revert-Runs now it.id marked y there f1.ready)
            (λ log1 (k, r). dotdotdot-Fits now (selected log.items) log1 s (Fits-kept k r f1)))

  pub click-Fits :
      (selects_text : Bool) (id : ℕ) (log : Log) (s : Shown)
      → Fits NoItem log s
      → Runs (click now selects_text id log) (λ log'. Fits NoItem log' s)
  click-Fits true id log s f = unfold click in (log, refl, f)
  click-Fits false id log s f = elim (Option-cases (find_item id log.items)) [
    | inl e ↦ unfold click in rw (e, click) (log, refl, f)
    | inr (it, e) ↦
        unfold click in
        rw (e, click)
          (select-Fits it log s
            (find_item-All (IsIn log.items) id log.items it (IsIn-own log.items) e) f)
  ]
