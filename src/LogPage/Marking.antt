-- ===== src/LogPage/Marking.antt =====
-- The selection of the log page's list, and the invariant.
use colt_core.Base.{
  ℕ, ◌≤◌, ◌<◌, ◌≡◌, refl, ap, ◌∙◌, sym, subst, Bool, true, false, Option, some, inl, inr, List, [],
  ◌∷◌, ◌==◌, ==_iff, if◌then◌else◌, arith, length, All, Bool-cases,
}
use colt_core.LogPage.State.{Item, find_item, modify_item, selected, messages}
use colt_core.LogPage.Shown.{is_syntax}
use colt_core.LogPage.Sound.{IsJava, ids, AllAbove, IsIncreasing, is_pending, IsSound}
use colt_core.LogPage.Kept.{All-map, All-modify_item}
use colt_core.LogPage.Selecting.{mark, unselect_all}

ids-mark : (b : Bool) (id : ℕ) (its : List Item) → ids (modify_item id (mark b) its) ≡ ids its
unfolding modify_item
ids-mark b id [] = refl
ids-mark b id (it ∷ its) = elim (Bool-cases (it.id == id)) [
  | inl e ↦ rw e (ap (λ ks. it.id ∷ ks) (ids-mark b id its))
  | inr e ↦ rw e (ap (λ ks. it.id ∷ ks) (ids-mark b id its))
]

ids-unselect_all : (its : List Item) → ids (unselect_all its) ≡ ids its
ids-unselect_all [] = refl
ids-unselect_all (it ∷ its) = ap (λ ks. it.id ∷ ks) (ids-unselect_all its)

pub messages-mark :
    (b : Bool) (id : ℕ) (its : List Item) → messages (modify_item id (mark b) its) ≡ messages its
unfolding modify_item
messages-mark b id [] = refl
messages-mark b id (it ∷ its) = elim (Bool-cases (it.id == id)) [
  | inl e ↦ rw e (ap (λ ks. it.message ∷ ks) (messages-mark b id its))
  | inr e ↦ rw e (ap (λ ks. it.message ∷ ks) (messages-mark b id its))
]

pub messages-unselect_all : (its : List Item) → messages (unselect_all its) ≡ messages its
messages-unselect_all [] = refl
messages-unselect_all (it ∷ its) = ap (λ ms. it.message ∷ ms) (messages-unselect_all its)

length-selected-unmark :
    (id : ℕ) (its : List Item)
    → length (selected (modify_item id (mark false) its)) ≤ length (selected its)
unfolding modify_item selected
length-selected-unmark id [] = omega arith
length-selected-unmark id (it ∷ its) = ground (arith, length-selected-unmark id its)

selected-unselect_all : (its : List Item) → selected (unselect_all its) ≡ []
unfolding selected
selected-unselect_all [] = refl
selected-unselect_all (it ∷ its) = selected-unselect_all its

-- Marking an item changes nothing that stands behind it.
selected-mark_above :
    (id : ℕ) (its : List Item)
    → AllAbove id (ids its)
    → selected (modify_item id (mark true) (unselect_all its)) ≡ []
unfolding modify_item selected
selected-mark_above id [] h = refl
selected-mark_above id (it ∷ its) (p, ps) =
    ground (arith, ==_iff it.id id, selected-mark_above id its ps)

-- In a list with increasing identities, the one item of that identity is selected, if there is one.
pub selected-mark :
    (id : ℕ) (its : List Item) (it : Item)
    → IsIncreasing (ids its)
    → find_item id its ≡ some it
    → selected (modify_item id (mark true) (unselect_all its)) ≡ id ∷ []
unfolding modify_item selected find_item
selected-mark id [] it h e = cc
selected-mark id (x ∷ its) it (p, ps) e = elim (Bool-cases (x.id == id)) [
  | inl b ↦
      let same : x.id ≡ id = (==_iff x.id id).0 b in
      rw (b, same)
        (ap (λ ks. id ∷ ks) (selected-mark_above id its (subst (λ n. AllAbove n (ids its)) same p)))
  | inr b ↦ rw b (selected-mark id its it ps (not_first (x.id == id) b e))
]
  where
    not_first :
        (b : Bool)
        → b ≡ false
        → (if b then some x else find_item id its) ≡ some it
        → find_item id its ≡ some it
    not_first true f e = cc
    not_first false f e = e

-- What the selection leaves.
All-mark :
    (P : Item → Type 0) (b : Bool) (id : ℕ) (its : List Item)
    → ((it : Item) → P it → P (mark b it))
    → All P its
    → All P (modify_item id (mark b) its)
All-mark P b id its h ps = All-modify_item P P id (mark b) its (λ it e p. h it p) (λ it n p. p) ps

pub IsSound-unmark :
    (id : ℕ) (its : List Item) (pending : Option ℕ) (next_id : ℕ)
    → IsSound its pending next_id
    → IsSound (modify_item id (mark false) its) pending next_id
IsSound-unmark id its pending next_id s = record {
  application = All-mark (λ it. IsJava it.message) false id its (λ it p. p) s.application;
  below = All-mark (λ it. it.id < next_id) false id its (λ it p. p) s.below;
  increasing = subst IsIncreasing (sym (ids-mark false id its)) s.increasing;
  pending =
      All-mark (λ it. is_syntax it.message ≡ is_pending pending it.id) false id its (λ it p. p)
        s.pending;
  single = omega (arith, s.single, length-selected-unmark id its);
}

pub IsSound-mark :
    (id : ℕ) (its : List Item) (it : Item) (pending : Option ℕ) (next_id : ℕ)
    → find_item id its ≡ some it
    → IsSound its pending next_id
    → IsSound (modify_item id (mark true) (unselect_all its)) pending next_id
IsSound-mark id its it pending next_id found s = record {
  application =
      All-mark (λ it. IsJava it.message) true id (unselect_all its) (λ it p. p)
        (All-map (λ it. IsJava it.message) (λ it. IsJava it.message) (mark false) its (λ it p. p)
          s.application);
  below =
      All-mark (λ it. it.id < next_id) true id (unselect_all its) (λ it p. p)
        (All-map (λ it. it.id < next_id) (λ it. it.id < next_id) (mark false) its (λ it p. p)
          s.below);
  increasing =
      subst IsIncreasing (sym (ids-mark true id (unselect_all its) ∙ ids-unselect_all its))
        s.increasing;
  pending =
      All-mark (λ it. is_syntax it.message ≡ is_pending pending it.id) true id (unselect_all its)
        (λ it p. p)
        (All-map (λ it. is_syntax it.message ≡ is_pending pending it.id) _ (mark false) its
          (λ it p. p) s.pending);
  single =
      subst (λ (ks : List ℕ). length ks ≤ 1) (sym (selected-mark id its it s.increasing found))
        (omega arith);
}
