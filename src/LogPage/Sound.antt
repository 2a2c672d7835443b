-- ===== src/LogPage/Sound.antt =====
-- The invariant of the log page's list: identities, the pending syntax error, and the selection.
use colt_core.Base.{
  ℕ, ◌≤◌, ◌<◌, ◌≡◌, refl, ap, ◌∙◌, sym, subst, Bool, true, false, Option, some, none, List, [], ◌∷◌,
  map, ◌==◌, if◌then◌else◌, length, All,
}
use colt_core.LogPage.Messages.{Message, java, plain, has_no_markup}
use colt_core.LogPage.State.{Item, selected, messages}
use colt_core.LogPage.Shown.{is_syntax}
use colt_core.LogPage.Kept.{bare, All-map}

-- A message of the application, with no markup in its source.
abbrev pub IsJava : Message → Type 0
IsJava (java name message source) = has_no_markup source ≡ true
IsJava (plain message level source syntax) = ⊥

abbrev pub ids : List Item → List ℕ
ids its = map (λ it. it.id) its

abbrev pub AllAbove : ℕ → List ℕ → Type 0
AllAbove n [] = Unit
AllAbove n (k ∷ ks) = (n < k) × AllAbove n ks

abbrev pub IsIncreasing : List ℕ → Type 0
IsIncreasing [] = Unit
IsIncreasing (k ∷ ks) = AllAbove k ks × IsIncreasing ks

-- Whether an item is that of the syntax error which the next message takes away.
abbrev pub is_pending : Option ℕ → ℕ → Bool
is_pending none id = false
is_pending (some k) id = k == id

-- The list holds messages of the application, whose items have increasing identities below the next
-- one; its syntax errors are those that the next message takes away, and one item at most is selected.
pub record IsSound (its : List Item) (syntax_error : Option ℕ) (next_id : ℕ) : Type 0 where
  pub application : All (λ it. IsJava it.message) its
  pub below : All (λ it. it.id < next_id) its
  pub increasing : IsIncreasing (ids its)
  pub pending : All (λ it. is_syntax it.message ≡ is_pending syntax_error it.id) its
  pub single : length (selected its) ≤ 1

All-bare :
    (P : Item → Type 0) (a : List Item)
    → ((it : Item) → P (bare it) → P it)
    → All P (map bare a)
    → All P a
All-bare P [] h p = tt
All-bare P (it ∷ its) h (p, ps) = (h it p, All-bare P its h ps)

-- What depends on the bare items goes from a list to another.
All-kept :
    (P : Item → Type 0) (a b : List Item)
    → ((it : Item) → P it → P (bare it))
    → ((it : Item) → P (bare it) → P it)
    → map bare b ≡ map bare a
    → All P a
    → All P b
All-kept P a b there back e h =
    All-bare P b back (subst (All P) (sym e) (All-map P P bare a there h))

ids-bare : (its : List Item) → ids (map bare its) ≡ ids its
ids-bare [] = refl
ids-bare (it ∷ its) = ap (λ ks. it.id ∷ ks) (ids-bare its)

selected-bare : (its : List Item) → selected (map bare its) ≡ selected its
unfolding selected
selected-bare [] = refl
selected-bare (it ∷ its) =
    ap (λ (ks : List ℕ). if it.is_selected then it.id ∷ ks else ks) (selected-bare its)

messages-bare : (its : List Item) → messages (map bare its) ≡ messages its
messages-bare [] = refl
messages-bare (it ∷ its) = ap (λ ms. it.message ∷ ms) (messages-bare its)

module _ (a b : List Item) (e : map bare b ≡ map bare a) where
  pub selected-kept : selected b ≡ selected a
  selected-kept = sym (selected-bare b) ∙ ap selected e ∙ selected-bare a

  pub messages-kept : messages b ≡ messages a
  messages-kept = sym (messages-bare b) ∙ ap messages e ∙ messages-bare a

  pub IsSound-kept :
      {syntax_error : Option ℕ} {next_id : ℕ}
      → IsSound a syntax_error next_id
      → IsSound b syntax_error next_id
  IsSound-kept s = record {
    application = All-kept (λ it. IsJava it.message) a b (λ it p. p) (λ it p. p) e s.application;
    below = All-kept (λ it. it.id < _) a b (λ it p. p) (λ it p. p) e s.below;
    increasing = subst IsIncreasing (sym (sym (ids-bare b) ∙ ap ids e ∙ ids-bare a)) s.increasing;
    pending =
        All-kept (λ it. is_syntax it.message ≡ is_pending _ it.id) a b (λ it p. p) (λ it p. p) e
          s.pending;
    single = subst (λ (ks : List ℕ). length ks ≤ 1) (sym selected-kept) s.single;
  }
