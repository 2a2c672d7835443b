-- ===== src/LogPage/Selection.antt =====
-- What a click on a message of the log page selects.
use colt_core.Base.{
  ℕ, ◌≤◌, ◌≡◌, refl, ap, ◌∙◌, Bool, true, false, some, none, List, [], ◌∷◌, ◌==◌, ==_iff,
  if◌then◌else◌, arith, length, All, inl, inr, Bool-cases, codes,
}
use colt_core.Trunk8.Methods.{named}
use colt_core.LogPage.State.{
  Item, Log, Moment, Outcome, done, find_item, modify_item, change, selected, empty_log,
}
use colt_core.LogPage.Cutting.{trunk8_item, dotdotdot}
use colt_core.LogPage.Selecting.{mark, unselect_all, select_log_element, click}
use colt_core.LogPage.Actions.{Action, run}
use colt_core.LogPage.Shown.{Shown}
use colt_core.LogPage.Kept.{Runs, >>=-Runs, NoItem}
use colt_core.LogPage.Cuts.{revert-Runs, dotdotdot-Runs}
use colt_core.LogPage.Sound.{selected-kept}
use colt_core.LogPage.Marking.{selected-mark}
use colt_core.LogPage.Growing.{Fits}
use colt_core.LogPage.Choosing.{find_item-marked, mark-Fits, unmark-Fits}
use colt_core.LogPage.Refinement.{IsFromApplication}
use colt_core.LogPage.Promises.{reached-Fits}

nothing_selected : (its : List Item) → length (selected its) ≤ 0 → selected its ≡ []
nothing_selected its h = go (selected its) h
  where
    go : (ks : List ℕ) → length ks ≤ 0 → ks ≡ []
    go [] h = refl
    go (k ∷ ks) h = absurd (omega (arith, h))

selected_below :
    (id : ℕ) (its : List Item) → selected its ≡ [] → selected (modify_item id (mark false) its) ≡ []
unfolding selected modify_item
selected_below id [] e = refl
selected_below id (it ∷ its) e = ground (arith, selected_below id its)

find_item-id : (id : ℕ) (its : List Item) (it : Item) → find_item id its ≡ some it → it.id ≡ id
unfolding find_item
find_item-id id [] it e = cc
find_item-id id (x ∷ its) it e = ground (arith, ==_iff x.id id, find_item-id id its it)

-- A selected item that is found stands for a selection.
found_selected :
    (id : ℕ) (its : List Item) (it : Item)
    → find_item id its ≡ some it
    → it.is_selected ≡ true
    → 1 ≤ length (selected its)
unfolding find_item selected
found_selected id [] it e h = cc
found_selected id (x ∷ its) it e h = ground (arith, found_selected id its it)

selected-unmark :
    (id : ℕ) (its : List Item) (it : Item)
    → find_item id its ≡ some it
    → it.is_selected ≡ true
    → length (selected its) ≤ 1
    → selected (modify_item id (mark false) its) ≡ []
unfolding find_item selected modify_item
selected-unmark id [] it e h b = cc
selected-unmark id (x ∷ its) it e h b = elim (Bool-cases (x.id == id)) [
  | inl c ↦
      let on : x.is_selected ≡ true = ground (arith, c, e, h) in
      rw c (selected_below id its (nothing_selected its (ground (arith, on, b))))
  | inr c ↦
      let behind : find_item id its ≡ some it = ground (arith, c, e) in
      let some_more = found_selected id its it behind h in
      elim (Bool-cases x.is_selected) [
        | inl on ↦ absurd (ground (arith, on, b, some_more))
        | inr off ↦ rw (c, off) (selected-unmark id its it behind h (ground (arith, off, b)))
      ]
]

-- What is selected once the item is selected or not any more.
abbrev pub IsToggled : Item → Log → Type 0
IsToggled it log = selected log.items ≡ (if it.is_selected then [] else it.id ∷ [])

toggled_by :
    (b : Bool) (x y : Outcome) (u v : List ℕ)
    → (b ≡ true → Runs x (λ l. selected l.items ≡ u))
    → (b ≡ false → Runs y (λ l. selected l.items ≡ v))
    → Runs (if b then x else y) (λ l. selected l.items ≡ (if b then u else v))
toggled_by true x y u v p q = p refl
toggled_by false x y u v p q = q refl

select-IsToggled :
    (now : Moment) (it : Item) (log : Log) (s : Shown)
    → find_item it.id log.items ≡ some it
    → Fits NoItem log s
    → Runs (select_log_element now it log) (IsToggled it)
unfolding select_log_element
select-IsToggled now it log s found f =
    toggled_by it.is_selected _ _ [] (it.id ∷ [])
      (λ on.
        let unmarked = change it.id (mark false) log in
        let (log', e, (k, r)) =
          dotdotdot-Runs now (it.id ∷ []) unmarked (unmark-Fits now it.id log s f).ready in
        (
          log',
          e,
          selected-kept unmarked.items log'.items k.items
              ∙ selected-unmark it.id log.items it found on f.sound.single,
        ))
      (λ off.
        let marked = change it.id (mark true) (record log { items = unselect_all log.items }) in
        let f1 = mark-Fits now it.id it log s found f in
        let (y, there) = find_item-marked it.id log.items it found in
        >>=-Runs (trunk8_item now (named (codes "revert") none) it.id marked)
          (dotdotdot now (selected log.items)) (revert-Runs now it.id marked y there f1.ready)
          (λ log1 (k1, r1).
            let (log2, e2, (k2, r2)) = dotdotdot-Runs now (selected log.items) log1 r1 in
            (
              log2,
              e2,
              selected-kept log1.items log2.items k2.items
                  ∙ selected-kept marked.items log1.items k1.items
                  ∙ selected-mark it.id log.items it f.sound.increasing found,
            )))

-- In a state that the page comes to, where F5 is not pressed, all messages are the application's and their
-- sources hold no markup, a click on the text of an item selects that item alone, or nothing if it was selected, and raises no exception.
pub click-IsToggled :
    (actions : List Action) (log : Log) (now : Moment) (id : ℕ) (it : Item)
    → All IsFromApplication actions
    → run actions empty_log ≡ done log
    → find_item id log.items ≡ some it
    → Runs (click now false id log) (IsToggled it)
click-IsToggled actions log now id it h e found =
    let same = find_item-id id log.items it found in
    unfold click in
    rw (found, click)
      (select-IsToggled now it log _ (ap (λ (k : ℕ). find_item k log.items) same ∙ found)
        (reached-Fits actions log h e))
