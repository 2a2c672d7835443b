-- ===== src/LogPage/Steps.antt =====
-- The changes of the log page's list keep its invariant.
use colt_core.Base.{
  ℕ, ◌+◌, ◌≤◌, ◌<◌, ◌≡◌, refl, ap, sym, subst, true, false, Option, some, none, ◌⊎◌, inl, inr, List,
  [], ◌∷◌, ◌++◌, ◌==◌, ==_iff, if◌then◌else◌, arith, length, All, All-append, Bool-cases, ==_refl,
}
use colt_core.LogPage.Messages.{tail}
use colt_core.LogPage.State.{Item, without_item, selected, messages}
use colt_core.LogPage.Shown.{is_syntax, without_syntax}
use colt_core.LogPage.Sound.{IsJava, ids, AllAbove, IsIncreasing, is_pending, IsSound}

pub All-without_item :
    (P : Item → Type 0) (id : ℕ) (its : List Item) → All P its → All P (without_item id its)
unfolding without_item
All-without_item P id [] h = tt
All-without_item P id (it ∷ its) (p, ps) = elim (Bool-cases (it.id == id)) [
  | inl e ↦ rw e (All-without_item P id its ps)
  | inr e ↦ rw e (p, All-without_item P id its ps)
]

AllAbove-without_item :
    (n id : ℕ) (its : List Item) → AllAbove n (ids its) → AllAbove n (ids (without_item id its))
unfolding without_item
AllAbove-without_item n id [] h = tt
AllAbove-without_item n id (it ∷ its) (p, ps) = elim (Bool-cases (it.id == id)) [
  | inl e ↦ rw e (AllAbove-without_item n id its ps)
  | inr e ↦ rw e (p, AllAbove-without_item n id its ps)
]

IsIncreasing-without_item :
    (id : ℕ) (its : List Item) → IsIncreasing (ids its) → IsIncreasing (ids (without_item id its))
unfolding without_item
IsIncreasing-without_item id [] h = tt
IsIncreasing-without_item id (it ∷ its) (p, ps) = elim (Bool-cases (it.id == id)) [
  | inl e ↦ rw e (IsIncreasing-without_item id its ps)
  | inr e ↦ rw e (AllAbove-without_item it.id id its p, IsIncreasing-without_item id its ps)
]

length-selected-without_item :
    (id : ℕ) (its : List Item) → length (selected (without_item id its)) ≤ length (selected its)
unfolding without_item selected
length-selected-without_item id [] = omega arith
length-selected-without_item id (it ∷ its) = ground (arith, length-selected-without_item id its)

-- The items of a list whose pending syntax error is taken away.
abbrev pub taken : Option ℕ → List Item → List Item
taken none its = its
taken (some id) its = without_item id its

-- What is left has no syntax error.
nothing_pending :
    (id : ℕ) (its : List Item)
    → All (λ it. is_syntax it.message ≡ (id == it.id)) its
    → All (λ it. is_syntax it.message ≡ false) (without_item id its)
unfolding without_item
nothing_pending id [] h = tt
nothing_pending id (it ∷ its) (p, ps) = elim (Bool-cases (it.id == id)) [
  | inl e ↦ rw e (nothing_pending id its ps)
  | inr e ↦ rw e (ground (arith, p), nothing_pending id its ps)
]

pub messages-taken :
    (syntax_error : Option ℕ) (its : List Item)
    → All (λ it. is_syntax it.message ≡ is_pending syntax_error it.id) its
    → messages (taken syntax_error its) ≡ without_syntax (messages its)
unfolding without_item without_syntax
messages-taken none [] h = refl
messages-taken none (it ∷ its) (p, ps) =
    rw p (ap (λ ms. it.message ∷ ms) (messages-taken none its ps))
messages-taken (some id) [] h = refl
messages-taken (some id) (it ∷ its) (p, ps) = ground (arith, p, messages-taken (some id) its ps)

pub IsSound-taken :
    (syntax_error : Option ℕ) (its : List Item) (next_id : ℕ)
    → IsSound its syntax_error next_id
    → IsSound (taken syntax_error its) none next_id
IsSound-taken none its next_id s = s
IsSound-taken (some id) its next_id s = record {
  application = All-without_item _ id its s.application;
  below = All-without_item _ id its s.below;
  increasing = IsIncreasing-without_item id its s.increasing;
  pending = nothing_pending id its s.pending;
  single = omega (arith, s.single, length-selected-without_item id its);
}

AllAbove-append : (n k : ℕ) (ks : List ℕ) → n < k → AllAbove n ks → AllAbove n (ks ++ k ∷ [])
AllAbove-append n k [] h p = (h, tt)
AllAbove-append n k (j ∷ ks) h (p, ps) = (p, AllAbove-append n k ks h ps)

IsIncreasing-append :
    (it : Item) (its : List Item)
    → All (λ x. x.id < it.id) its
    → IsIncreasing (ids its)
    → IsIncreasing (ids (its ++ it ∷ []))
IsIncreasing-append it [] h p = (tt, tt)
IsIncreasing-append it (x ∷ its) (h, hs) (p, ps) =
    (above x its h p, IsIncreasing-append it its hs ps)
  where
    above :
        (x : Item) (its : List Item)
        → x.id < it.id
        → AllAbove x.id (ids its)
        → AllAbove x.id (ids (its ++ it ∷ []))
    above x [] lt q = (lt, tt)
    above x (y ∷ its) lt (q, qs) = (q, above x its lt qs)

selected-append :
    (it : Item) (its : List Item)
    → it.is_selected ≡ false
    → selected (its ++ it ∷ []) ≡ selected its
unfolding selected
selected-append it [] h = rw h refl
selected-append it (x ∷ its) h =
    ap (λ (ks : List ℕ). if x.is_selected then x.id ∷ ks else ks) (selected-append it its h)

pub messages-append : (a b : List Item) → messages (a ++ b) ≡ messages a ++ messages b
messages-append [] b = refl
messages-append (it ∷ a) b = ap (λ ms. it.message ∷ ms) (messages-append a b)

-- A new message of the application, which is pending if it is a syntax error.
pub IsSound-append :
    (it : Item) (its : List Item) (pending : Option ℕ)
    → IsJava it.message
    → it.is_selected ≡ false
    → pending ≡ (if is_syntax it.message then some it.id else none)
    → IsSound its none it.id
    → IsSound (its ++ it ∷ []) pending (it.id + 1)
IsSound-append it its pending app unselected e s = record {
  application = All-append (λ x. IsJava x.message) its (it ∷ []) s.application (app, tt);
  below =
      All-append (λ x. x.id < it.id + 1) its (it ∷ []) (All-weaken its s.below) (omega arith, tt);
  increasing = IsIncreasing-append it its s.below s.increasing;
  pending =
      All-append (λ x. is_syntax x.message ≡ is_pending pending x.id) its (it ∷ [])
        (others its s.below s.pending) (own (Bool-cases (is_syntax it.message)), tt);
  single =
      subst (λ (ks : List ℕ). length ks ≤ 1) (sym (selected-append it its unselected)) s.single;
}
  where
    All-weaken : (its : List Item) → All (λ x. x.id < it.id) its → All (λ x. x.id < it.id + 1) its
    All-weaken [] h = tt
    All-weaken (x ∷ its) (p, ps) = (omega (arith, p), All-weaken its ps)

    own :
        (is_syntax it.message ≡ true) ⊎ (is_syntax it.message ≡ false)
        → is_syntax it.message ≡ is_pending pending it.id
    own (inl b) = rw (e, b) (sym (==_refl it.id))
    own (inr b) = rw (e, b) refl

    other :
        (x : Item)
        → x.id < it.id
        → is_syntax x.message ≡ false
        → (is_syntax it.message ≡ true) ⊎ (is_syntax it.message ≡ false)
        → is_syntax x.message ≡ is_pending pending x.id
    other x lt p (inl b) = rw (e, b) (ground (arith, p, ==_iff it.id x.id))
    other x lt p (inr b) = rw (e, b) p

    others :
        (its : List Item)
        → All (λ x. x.id < it.id) its
        → All (λ x. is_syntax x.message ≡ false) its
        → All (λ x. is_syntax x.message ≡ is_pending pending x.id) its
    others [] h p = tt
    others (x ∷ its) (h, hs) (p, ps) =
        (other x h p (Bool-cases (is_syntax it.message)), others its hs ps)

length-selected-tail : (its : List Item) → length (selected (tail its)) ≤ length (selected its)
unfolding selected
length-selected-tail [] = omega arith
length-selected-tail (it ∷ its) = ground arith

-- The oldest message is taken away.
pub IsSound-tail :
    (its : List Item) (pending : Option ℕ) (next_id : ℕ)
    → IsSound its pending next_id
    → IsSound (tail its) pending next_id
IsSound-tail [] pending next_id s = s
IsSound-tail (it ∷ its) pending next_id s = record {
  application = s.application.1;
  below = s.below.1;
  increasing = s.increasing.1;
  pending = s.pending.1;
  single = omega (arith, s.single, length-selected-tail (it ∷ its));
}

pub messages-tail : (its : List Item) → messages (tail its) ≡ tail (messages its)
messages-tail [] = refl
messages-tail (it ∷ its) = refl

pub IsSound-nil : (pending : Option ℕ) (next_id : ℕ) → IsSound [] pending next_id
unfolding selected
IsSound-nil pending next_id = record {
  application = tt;
  below = tt;
  increasing = tt;
  pending = tt;
  single = omega arith;
}
