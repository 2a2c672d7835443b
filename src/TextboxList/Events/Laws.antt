-- ===== src/TextboxList/Events/Laws.antt =====
-- What the event table promises.
use colt_core.Base.{
  ℕ, suc, ◌+◌, ◌≡◌, refl, sym, ◌∙◌, ap, false, Option, none, some, List, [], ◌∷◌, ◌++◌, Text,
  length, get_elem?, ◌==◌, ==_refl, text_eq, text_eq_refl, text_eq_iff, if◌then◌else◌, arith,
  append-nil,
}
use colt_core.TextboxList.Events.{
  Table, bound_already, strict_eq, handlers, assign, bound, add_event, erase_idx, remove_from,
  remove_event, run_all, fire_event,
}

bound_already-false : (i : ℕ) (hs : List ℕ) (fn : ℕ) → bound_already i hs fn ≡ false
unfolding bound_already strict_eq
bound_already-false i [] fn = refl
bound_already-false i (h ∷ hs) fn = bound_already-false (i + 1) hs fn

handlers-assign :
    (events : Table) (type other : Text) (hs : List ℕ)
    → handlers (assign events type hs) other
      ≡ (if text_eq type other then some hs else handlers events other)
unfolding handlers assign
handlers-assign [] type other hs = refl
handlers-assign ((t, old) ∷ events) type other hs = ground (
  arith,
  text_eq_iff t type,
  text_eq_iff type other,
  text_eq_iff t other,
  handlers-assign events type other hs,
)

-- `addEvent` binds the function behind those that are bound to the event already, and a second time if
-- it is among them; the functions of the other events stay.
pub handlers-add_event :
    (type other : Text) (fn : ℕ) (events : Table)
    → handlers (add_event type fn events) other
      ≡ (if text_eq type other then some (bound events type ++ fn ∷ []) else handlers events other)
unfolding add_event
handlers-add_event type other fn events =
    rw (bound_already-false 0 (bound events type) fn) (handlers-assign events type other _)

-- The elements other than `fn`, in order.
unfoldable pub without : ℕ → List ℕ → List ℕ
without fn [] = []
without fn (h ∷ hs) = if h == fn then without fn hs else h ∷ without fn hs

without-append : (fn : ℕ) (xs ys : List ℕ) → without fn (xs ++ ys) ≡ without fn xs ++ without fn ys
unfolding without
without-append fn [] ys = refl
without-append fn (x ∷ xs) ys = ground (arith, without-append fn xs ys)

bound-add_event :
    (type : Text) (fn : ℕ) (events : Table)
    → bound (add_event type fn events) type ≡ bound events type ++ fn ∷ []
unfolding bound
bound-add_event type fn events =
    ground (arith, handlers-add_event type type fn events, text_eq_refl type)

-- The elements of the first list in front of the second, the last one first.
rev_onto : List ℕ → List ℕ → List ℕ
rev_onto [] ys = ys
rev_onto (x ∷ xs) ys = rev_onto xs (x ∷ ys)

get_elem?-rev_onto :
    (xs ys : List ℕ) (i : ℕ) → get_elem? (rev_onto xs ys) (length xs + i) ≡ get_elem? ys i
unfolding rev_onto
get_elem?-rev_onto [] ys i = ap (get_elem? ys) (omega arith)
get_elem?-rev_onto (x ∷ xs) ys i =
    ap (get_elem? (rev_onto xs (x ∷ ys))) (omega arith) ∙ get_elem?-rev_onto xs (x ∷ ys) (suc i)

erase_idx-rev_onto :
    (xs ys : List ℕ) (i : ℕ)
    → erase_idx (rev_onto xs ys) (length xs + i) ≡ rev_onto xs (erase_idx ys i)
unfolding rev_onto erase_idx
erase_idx-rev_onto [] ys i = ap (erase_idx ys) (omega arith)
erase_idx-rev_onto (x ∷ xs) ys i =
    ap (erase_idx (rev_onto xs (x ∷ ys))) (omega arith) ∙ erase_idx-rev_onto xs (x ∷ ys) (suc i)

-- One round of the loop of `removeEvent`, at the element with `length xs` others in front.
remove_from-rev_onto :
    (xs ys : List ℕ) (fn : ℕ)
    → remove_from (length xs) fn (rev_onto xs ys) ≡ rev_onto (without fn xs) ys
unfolding remove_from without rev_onto
remove_from-rev_onto [] ys fn = refl
remove_from-rev_onto (x ∷ xs) ys fn =
    ground (arith, here, gone, remove_from-rev_onto xs ys fn, remove_from-rev_onto xs (x ∷ ys) fn)
  where
    here : get_elem? (rev_onto xs (x ∷ ys)) (length xs) ≡ some x
    here = ap (get_elem? (rev_onto xs (x ∷ ys))) (omega arith) ∙ get_elem?-rev_onto xs (x ∷ ys) 0

    gone : erase_idx (rev_onto xs (x ∷ ys)) (length xs) ≡ rev_onto xs ys
    gone =
        ap (erase_idx (rev_onto xs (x ∷ ys))) (omega arith)
        ∙ unfold erase_idx in erase_idx-rev_onto xs (x ∷ ys) 0

without-rev_onto :
    (xs ys : List ℕ) (fn : ℕ)
    → without fn (rev_onto xs ys) ≡ rev_onto (without fn xs) (without fn ys)
unfolding without rev_onto
without-rev_onto [] ys fn = refl
without-rev_onto (x ∷ xs) ys fn = ground (arith, without-rev_onto xs (x ∷ ys) fn)

rev_onto-rev_onto : (xs ys : List ℕ) → rev_onto (rev_onto xs ys) [] ≡ rev_onto ys xs
unfolding rev_onto
rev_onto-rev_onto [] ys = refl
rev_onto-rev_onto (x ∷ xs) ys = rev_onto-rev_onto xs (x ∷ ys)

length-rev_onto : (xs ys : List ℕ) → length (rev_onto xs ys) ≡ length xs + length ys
unfolding rev_onto
length-rev_onto [] ys = omega arith
length-rev_onto (x ∷ xs) ys = omega (arith, length-rev_onto xs (x ∷ ys))

remove_from-without : (hs : List ℕ) (fn : ℕ) → remove_from (length hs) fn hs ≡ without fn hs
unfolding rev_onto
remove_from-without hs fn =
    let rx = rev_onto hs [] in
    ap (λ n. remove_from n fn hs) (omega (arith, length-rev_onto hs []))
    ∙ ap (remove_from (length rx) fn) (sym (rev_onto-rev_onto hs []))
    ∙ remove_from-rev_onto rx [] fn
    ∙ ap (λ xs. rev_onto xs []) (without-rev_onto hs [] fn)
    ∙ rev_onto-rev_onto (without fn hs) (without fn [])
    ∙ unfold without in refl

-- `removeEvent` takes every occurrence of the function from the event's list, and nothing else.
bound-remove_event :
    (type other : Text) (fn : ℕ) (events : Table)
    → bound (remove_event type fn events) other
      ≡ (if text_eq type other then without fn (bound events other) else bound events other)
unfolding remove_event bound
bound-remove_event type other fn events = go (handlers events type) refl
  where
    go :
        (found : Option (List ℕ))
        → handlers events type ≡ found
        → bound (remove_event type fn events) other
          ≡ (if text_eq type other then without fn (bound events other) else bound events other)
    go none e = unfold without in ground (arith, text_eq_iff type other)
    go (some hs) e = ground (
      arith,
      text_eq_iff type other,
      handlers-assign events type other (remove_from (length hs) fn hs),
      remove_from-without hs fn,
    )

-- Binding a function and removing it leaves the functions that differ from it.
bound-remove_event-add_event :
    (type : Text) (fn : ℕ) (events : Table)
    → bound (remove_event type fn (add_event type fn events)) type ≡ without fn (bound events type)
bound-remove_event-add_event type fn events =
    rw (bound-remove_event type type fn (add_event type fn events), text_eq_refl type)
      (ap (without fn) (bound-add_event type fn events) ∙ dropped)
  where
    dropped : without fn (bound events type ++ fn ∷ []) ≡ without fn (bound events type)
    dropped =
        without-append fn (bound events type) (fn ∷ [])
        ∙ unfold without in rw (==_refl fn, append-nil)

-- What every function keeps, firing an event keeps.
module _ {ℓ κ} {S : Type ℓ} (run : ℕ → S → S) (P : S → Type κ) where
  run_all_inv :
      ((h : ℕ) (s : S) → P s → P (run h s)) → (hs : List ℕ) (s : S) → P s → P (run_all run hs s)
  unfolding run_all
  run_all_inv keep [] s p = p
  run_all_inv keep (h ∷ hs) s p = run_all_inv keep hs (run h s) (keep h s p)

  pub fire_event_inv :
      ((h : ℕ) (s : S) → P s → P (run h s))
      → (events : Table) (type : Text) (s : S) → P s
      → P (fire_event run events type s)
  unfolding fire_event
  fire_event_inv keep events type s p = go (handlers events type)
    where
      go : (found : Option (List ℕ)) → P (elim found [ none ↦ s | some hs ↦ run_all run hs s ])
      go none = p
      go (some hs) = run_all_inv keep hs s p
