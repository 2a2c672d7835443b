-- ===== src/LogPage/Keys.antt =====
-- The keys of the log page select an item of its list, and raise nothing.
use mathlib.Core.Option.{some-injective}
use colt_core.Base.{
  ℕ, ◌≡◌, refl, ap, ◌∙◌, subst, Bool, true, false, ◌||◌, Option, some, none, inl, inr, List, [],
  ◌∷◌, ◌==◌, arith, All, Bool-cases, Option-cases,
}
use colt_core.ScrollTo.{scroll_to, arguments, settings, animate_all, scroll_y}
use colt_core.LogPage.State.{Item, Log, Moment, done, ◌>>=◌}
use colt_core.LogPage.Selecting.{
  is_in_scroll, in_scroll, first_item, last_item, previous, next, new_selection, select_log_element,
  scroll_into_view, key_down,
}
use colt_core.LogPage.Shown.{Shown}
use colt_core.LogPage.Kept.{Runs, >>=-Runs, changed, NoItem}
use colt_core.LogPage.Growing.{Fits}
use colt_core.LogPage.Looking.{relook}
use colt_core.LogPage.Choosing.{IsIn, IsIn-own, select-Fits}

module _ (P : Item → Type 0) where
  first_item-All : (its : List Item) (it : Item) → All P its → first_item its ≡ some it → P it
  first_item-All [] it h e = cc
  first_item-All (x ∷ its) it (p, h) e = subst P (some-injective x it e) p

  last_item-All : (its : List Item) (it : Item) → All P its → last_item its ≡ some it → P it
  unfolding last_item
  last_item-All [] it h e = cc
  last_item-All (x ∷ its) it (p, h) e = elim (Option-cases (last_item its)) [
    | inl n ↦ subst P (some-injective x it (ground (arith, n, e))) p
    | inr (l, f) ↦ last_item-All its it h (ground (arith, f, e))
  ]

  in_scroll-All :
      (now : Moment) (top : ℕ) (its : List Item) → All P its → All P (in_scroll now top its)
  unfolding in_scroll
  in_scroll-All now top [] h = tt
  in_scroll-All now top (x ∷ its) (p, h) =
      changed (All P) (is_in_scroll now top x.id) _ _ (λ b. (p, in_scroll-All now top its h))
        (λ b. in_scroll-All now top its h)

  next-All : (its : List Item) (it : Item) → All P its → next its ≡ some (some it) → P it
  unfolding next
  next-All [] it h e = cc
  next-All (x ∷ its) it (p, h) e = elim (Bool-cases x.is_selected) [
    | inl b ↦ first_item-All its it h (ground (arith, b, e))
    | inr b ↦ next-All its it h (ground (arith, b, e))
  ]

  previous-All :
      (before : Option Item) (its : List Item) (it : Item)
      → ((x : Item) → before ≡ some x → P x)
      → All P its
      → previous before its ≡ some (some it)
      → P it
  unfolding previous
  previous-All before [] it q h e = cc
  previous-All before (x ∷ its) it q (p, h) e = elim (Bool-cases x.is_selected) [
    | inl b ↦ q it (ground (arith, b, e))
    | inr b ↦
        previous-All (some x) its it (λ y f. subst P (some-injective x y f) p) h
          (ground (arith, b, e))
  ]

  -- The item that a key selects is one of the list.
  new_selection-All :
      (now : Moment) (up : Bool) (log : Log) (it : Item)
      → All P log.items
      → new_selection now up log ≡ some it
      → P it
  unfolding new_selection
  new_selection-All now true log it h e = elim (Option-cases (previous none log.items)) [
    | inl n ↦
        first_item-All (in_scroll now log.scroll_top log.items) it
          (in_scroll-All now log.scroll_top log.items h) (ground (arith, n, e))
    | inr (o, f) ↦ previous-All none log.items it (λ x n. cc) h (f ∙ ap some (ground (arith, f, e)))
  ]
  new_selection-All now false log it h e = elim (Option-cases (next log.items)) [
    | inl n ↦
        last_item-All (in_scroll now log.scroll_top log.items) it
          (in_scroll-All now log.scroll_top log.items h) (ground (arith, n, e))
    | inr (o, f) ↦ next-All log.items it h (f ∙ ap some (ground (arith, f, e)))
  ]

scroll_into_view-Fits :
    (now : Moment) (id : ℕ) (log : Log) (s : Shown)
    → Fits NoItem log s
    → Runs (scroll_into_view now id log) (λ log'. Fits NoItem log' s)
unfolding scroll_into_view scroll_to arguments settings animate_all scroll_y
scroll_into_view-Fits now id log s f =
    (_, refl, relook log.queue log.update_waits log.filters log.scroll_top _ log s f)

pub key_down-Fits :
    (now : Moment) (key_code : ℕ) (log : Log) (s : Shown)
    → Fits NoItem log s
    → Runs (key_down now key_code log) (λ log'. Fits NoItem log' s)
unfolding key_down
key_down-Fits now key_code log s f =
    changed (λ o. Runs o (λ log'. Fits NoItem log' s)) (key_code == 38 || key_code == 40) _ _
      (λ on. chosen_by (new_selection now (key_code == 38) log) refl) (λ off. (log, refl, f))
  where
    chosen_by :
        (o : Option Item)
        → new_selection now (key_code == 38) log ≡ o
        → Runs
            (elim o [
              | none ↦ done log
              | some it ↦ select_log_element now it log >>= scroll_into_view now it.id
            ])
            (λ log'. Fits NoItem log' s)
    chosen_by none e = (log, refl, f)
    chosen_by (some it) e =
        >>=-Runs (select_log_element now it log) (scroll_into_view now it.id)
          (select-Fits now it log s
            (new_selection-All (IsIn log.items) now (key_code == 38) log it (IsIn-own log.items) e)
            f)
          (λ log1 f1. scroll_into_view-Fits now it.id log1 s f1)
