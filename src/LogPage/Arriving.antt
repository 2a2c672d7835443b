-- ===== src/LogPage/Arriving.antt =====
-- A message that comes to the log page does to it what is promised, and raises nothing.
use colt_core.Base.{
  ℕ, ◌≡◌, refl, ap, ◌∙◌, sym, subst, Bool, false, Option, some, none, inl, inr, List, [], ◌∷◌, ◌++◌,
  arith, All, All-append, Bool-cases,
}
use colt_core.LogPage.Messages.{Message, java, plain, Parsed, parse}
use colt_core.LogPage.State.{Item, Log, Moment}
use colt_core.LogPage.Adding.{
  remove_pending, remove_syntax_error, make_item, hide_new, append, count_message, add_log_message,
  add_all,
}
use colt_core.LogPage.Shown.{Shown, is_syntax, show, show_all}
use colt_core.LogPage.Kept.{Runs, >>=-Runs, Usable, Loaded, NoItem}
use colt_core.LogPage.Cuts.{NewItem, new-dotdotdot-Runs}
use colt_core.LogPage.Sound.{IsJava, IsSound}
use colt_core.LogPage.Steps.{IsSound-append, messages-append}
use colt_core.LogPage.Growing.{Fits, Fits-kept, remove_pending-Fits, count_message-Fits}

-- What is known of the item that is made for a message.
record IsNew (id : ℕ) (m : Message) (it : Item) : Type 0 where
  same_id : it.id ≡ id
  same_message : it.message ≡ m
  unselected : it.is_selected ≡ false
  unseen : it.paragraph.element ≡ none

hide_new-IsNew :
    (now : Moment) (id : ℕ) (m : Message) (p : Parsed)
    → IsNew id m (hide_new now (make_item now id m p))
unfolding hide_new make_item
hide_new-IsNew now id (java name message source) p = elim (Bool-cases (now.message_visible id)) [
  | inl e ↦ rw e (record { same_id = refl; same_message = refl; unselected = refl; unseen = refl })
  | inr e ↦ rw e (record { same_id = refl; same_message = refl; unselected = refl; unseen = refl })
]
hide_new-IsNew now id (plain message level source syntax) p = record {
  same_id = refl;
  same_message = refl;
  unselected = refl;
  unseen = refl;
}

-- The item, with its place in the list.
append-Fits :
    (it : Item) (m : Message) (syntax : Bool) (log : Log) (s : Shown)
    → IsJava m
    → syntax ≡ is_syntax m
    → IsNew log.next_id m it
    → log.syntax_error ≡ none
    → Fits NoItem log s
    → Fits
        (NewItem log.next_id)
        (append it syntax log)
        (record { count = s.count; list = s.list ++ m ∷ [] })
append-Fits it m syntax log s app is_error n e f = record {
  ready = record {
    usable =
        All-append Usable log.items (it ∷ []) f.ready.usable
          (λ el h. ground (arith, n.unseen, h), tt);
    loaded =
        All-append (Loaded (NewItem log.next_id)) log.items (it ∷ [])
          (seen log.items f.ready.loaded) (inl n.same_id, tt);
    usable_removed = f.ready.usable_removed;
  };
  sound =
      IsSound-append it log.items _ (subst IsJava (sym n.same_message) app) n.unselected
        (rw (is_error, n.same_message, e) refl)
        (subst (λ (k : ℕ). IsSound log.items none k) (sym n.same_id)
          (subst (λ (o : Option ℕ). IsSound log.items o log.next_id) e f.sound));
  list =
      messages-append log.items (it ∷ [])
      ∙ ap (λ ms. ms ++ it.message ∷ []) f.list
      ∙ ap (λ x. s.list ++ x ∷ []) n.same_message;
  count = f.count;
}
  where
    seen : (its : List Item) → All (Loaded NoItem) its → All (Loaded (NewItem log.next_id)) its
    seen [] h = tt
    seen (it ∷ its) (p, ps) = (elim p [ inl e ↦ absurd e | inr d ↦ inr d ], seen its ps)

parsed : (m : Message) → IsJava m → (p : Parsed) × (parse m ≡ some p) × (p.syntax ≡ is_syntax m)
unfolding parse
parsed (java name message source) h = (_, refl, refl)
parsed (plain message level source syntax) h = elim h [ ]

-- A message of the application comes.
pub add_log_message-Fits :
    (now : Moment) (m : Message) (log : Log) (s : Shown)
    → IsJava m
    → Fits NoItem log s
    → Runs (add_log_message now m log) (λ log'. Fits NoItem log' (show m s))
unfolding remove_syntax_error show
add_log_message-Fits now m log s app f =
    let (p, found, is_error) = parsed m app in
    let (e, f1) = remove_pending-Fits log.syntax_error log s refl f in
    let log1 = remove_pending log.syntax_error log in
    let it = hide_new now (make_item now log1.next_id m p) in
    let f2 =
      append-Fits it m p.syntax log1 _ app is_error (hide_new-IsNew now log1.next_id m p) e f1 in
    let log2 = count_message (append it p.syntax log1) in
    let f3 = count_message-Fits (NewItem log1.next_id) (append it p.syntax log1) _ f2 in
    let (log3, ran, (k, r)) = new-dotdotdot-Runs now log1.next_id log2 f3.ready in
    (log3, unfold add_log_message in rw (found, add_log_message) ran, Fits-kept k r f3)

pub add_all-Fits :
    (now : Moment) (ms : List Message) (log : Log) (s : Shown)
    → All IsJava ms
    → Fits NoItem log s
    → Runs (add_all now ms log) (λ log'. Fits NoItem log' (show_all ms s))
unfolding add_all show_all
add_all-Fits now [] log s h f = (log, refl, f)
add_all-Fits now (m ∷ ms) log s (h, hs) f =
    >>=-Runs (add_log_message now m log) (add_all now ms) (add_log_message-Fits now m log s h f)
      (λ log1 f1. add_all-Fits now ms log1 (show m s) hs f1)
