-- ===== src/LogPage/Kept.antt =====
-- Calls of trunk8.js from the log page raise nothing, and leave all but the paragraphs.
use mathlib.Core.Option.{some-injective}
use colt_core.Base.{
  ℕ, ◌≡◌, refl, ap, ◌∙◌, subst, Bool, true, false, Option, some, none, ◌⊎◌, List, [], ◌∷◌, map,
  ◌==◌, if◌then◌else◌, arith, All, ◌≢◌, ==_iff,
}
use colt_core.Tipsy.{create}
use colt_core.Trunk8.Methods.Total.{IsUsable, HasData}
use colt_core.LogPage.State.{Item, Log, Outcome, done, ◌>>=◌, find_item, modify_item}

-- An outcome with no exception, with what is known of the page then.
abbrev pub Runs {ℓ} : Outcome → (Log → Type ℓ) → Type ℓ
Runs o P = (log : Log) × (o ≡ done log) × P log

pub >>=-Runs {ℓ κ} :
    {P : Log → Type ℓ} {Q : Log → Type κ} (o : Outcome) (f : Log → Outcome)
    → Runs o P
    → ((log : Log) → P log → Runs (f log) Q)
    → Runs (o >>= f) Q
>>=-Runs o f (log, e, p) h = let (log', e', q) = h log p in (log', ap (λ r. r >>= f) e ∙ e', q)

-- What of an item matters to the list: its identity, its message, and whether it is selected.
abbrev pub bare : Item → Item
bare it = record {
  id = it.id;
  message = it.message;
  level = [];
  is_visible = false;
  is_selected = it.is_selected;
  is_hidden = false;
  paragraph = record { html = []; title = none; element = none };
  link = [];
  tooltip = create none none;
}

-- What calls that only change how the items look leave as it is.
pub record Keeps (log log' : Log) : Type 0 where
  pub items : map bare log'.items ≡ map bare log.items
  pub message_count : log'.message_count ≡ log.message_count
  pub syntax_error : log'.syntax_error ≡ log.syntax_error
  pub next_id : log'.next_id ≡ log.next_id

pub Keeps-refl : (log : Log) → Keeps log log
Keeps-refl log = record { items = refl; message_count = refl; syntax_error = refl; next_id = refl }

pub Keeps-trans : {log log1 log2 : Log} → Keeps log log1 → Keeps log1 log2 → Keeps log log2
Keeps-trans k l = record {
  items = l.items ∙ k.items;
  message_count = l.message_count ∙ k.message_count;
  syntax_error = l.syntax_error ∙ k.syntax_error;
  next_id = l.next_id ∙ k.next_id;
}

abbrev pub Usable : Item → Type 0
Usable it = IsUsable it.paragraph

-- Each item of the list can be put back to its whole text, but perhaps the item `k`.
abbrev pub Loaded : (ℕ → Type 0) → Item → Type 0
Loaded except it = except it.id ⊎ HasData it.paragraph

pub record IsReady (except : ℕ → Type 0) (log : Log) : Type 0 where
  pub usable : All Usable log.items
  pub loaded : All (Loaded except) log.items
  pub usable_removed : All Usable log.removed

pub chosen {ℓ} :
    {A : Type ℓ} (P : A → Type 0) (b : Bool) (x y : A) (rest : Option A)
    → (if b then some x else rest) ≡ some y
    → P x
    → (rest ≡ some y → P y)
    → P y
chosen P true x y rest e p q = subst P (some-injective x y e) p
chosen P false x y rest e p q = q e

pub find_item-All :
    (P : Item → Type 0) (id : ℕ) (its : List Item) (it : Item)
    → All P its
    → find_item id its ≡ some it
    → P it
unfolding find_item
find_item-All P id [] it h e = cc
find_item-All P id (x ∷ its) it (p, ps) e =
    chosen P (x.id == id) x it (find_item id its) e p (find_item-All P id its it ps)

-- A fact on what is changed or not.
pub changed {ℓ} :
    {A : Type ℓ} (P : A → Type 0) (b : Bool) (x y : A)
    → (b ≡ true → P x)
    → (b ≡ false → P y)
    → P (if b then x else y)
changed P true x y p q = p refl
changed P false x y p q = q refl

pub bare-modify_item :
    (id : ℕ) (f : Item → Item) (its : List Item)
    → ((it : Item) → bare (f it) ≡ bare it)
    → map bare (modify_item id f its) ≡ map bare its
unfolding modify_item
bare-modify_item id f [] h = refl
bare-modify_item id f (it ∷ its) h =
    changed (λ x. (bare x ∷ map bare (modify_item id f its)) ≡ (bare it ∷ map bare its))
      (it.id == id) (f it) it
      (λ e.
        ap (λ x. x ∷ map bare (modify_item id f its)) (h it)
        ∙ ap (λ xs. bare it ∷ xs) (bare-modify_item id f its h))
      (λ e. ap (λ xs. bare it ∷ xs) (bare-modify_item id f its h))

pub All-modify_item :
    (P Q : Item → Type 0) (id : ℕ) (f : Item → Item) (its : List Item)
    → ((it : Item) → it.id ≡ id → P it → Q (f it))
    → ((it : Item) → it.id ≢ id → P it → Q it)
    → All P its
    → All Q (modify_item id f its)
unfolding modify_item
All-modify_item P Q id f [] here there h = tt
All-modify_item P Q id f (it ∷ its) here there (p, ps) = (
  changed Q (it.id == id) (f it) it (λ e. here it (ground (arith, ==_iff it.id id)) p)
      (λ e. there it (ground (arith, ==_iff it.id id)) p),
  All-modify_item P Q id f its here there ps,
)

pub All-map :
    (P Q : Item → Type 0) (f : Item → Item) (its : List Item)
    → ((it : Item) → P it → Q (f it))
    → All P its
    → All Q (map f its)
All-map P Q f [] h ps = tt
All-map P Q f (it ∷ its) h (p, ps) = (h it p, All-map P Q f its h ps)

abbrev pub NoItem : ℕ → Type 0
NoItem id = ⊥

not_chosen {ℓ} :
    {A : Type ℓ} (b : Bool) (x : A) (rest : Option A)
    → (if b then some x else rest) ≡ none
    → (b ≡ false) × (rest ≡ none)
not_chosen true x rest e = cc
not_chosen false x rest e = (refl, e)

pub find_item-absent :
    (id : ℕ) (its : List Item) → find_item id its ≡ none → All (λ it. it.id ≢ id) its
unfolding find_item
find_item-absent id [] e = tt
find_item-absent id (it ∷ its) e =
    let (other, rest) = not_chosen (it.id == id) it (find_item id its) e in
    (λ same. ground (arith, ==_iff it.id id), find_item-absent id its rest)

pub All-both :
    (P Q R : Item → Type 0) (its : List Item)
    → ((it : Item) → P it → Q it → R it)
    → All P its
    → All Q its
    → All R its
All-both P Q R [] h p q = tt
All-both P Q R (it ∷ its) h (p, ps) (q, qs) = (h it p q, All-both P Q R its h ps qs)
