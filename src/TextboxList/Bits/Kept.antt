-- ===== src/TextboxList/Bits/Kept.antt =====
-- What the operations on the bits keep: whatever does not look at the bits, the index and the
-- identities, and is kept by the functions bound to the events.
use colt_core.Base.{
  ℕ, ◌+◌, ◌≡◌, refl, subst, Bool, true, false, Option, none, some, List, [], ◌∷◌, ◌++◌, arith, Text,
  codes, if◌then◌else◌, insert_at,
}
use colt_core.TextboxList.Host.{Host, Value}
use colt_core.TextboxList.Codec.{plain_value, decode}
use colt_core.TextboxList.Events.Laws.{fire_event_inv}
use colt_core.TextboxList.Widget.{
  Kind, box, editable, Bit, Options, Widget, get_value, run_handler, fire, fire_bit_event,
}
use colt_core.TextboxList.Bits.{
  on_bits, unique_value, modify_bit, hide, create_editable, inject_editable, note_value,
  add_editable, on_add, inject_box, create_box, after_last_box, add, set_values, clear,
  set_new_values, wants_editable, prev,
}
use colt_core.TextboxList.Bits.Placing.{fresh_editable}

-- A property of the widget that the operations on the bits have no part in.
pub record IsApart {κ} (host : Host) (P : Widget → Type κ) : Type κ where
  pub handler : (h : ℕ) (w : Widget) → P w → P (run_handler host h w)
  pub bits : (bs : List Bit) (w : Widget) → P w → P (record w { bits = bs })
  pub index : (ts : List Text) (w : Widget) → P w → P (record w { index = ts })
  pub next_uid : (u : ℕ) (w : Widget) → P w → P (record w { next_uid = u })

module _ {κ} (host : Host) (opts : Options) (P : Widget → Type κ) (apart : IsApart host P) where
  fire-kept : (type : Text) (w : Widget) → P w → P (fire host type w)
  unfolding fire
  fire-kept type w = fire_event_inv (run_handler host) P apart.handler w.events type w

  fire_bit_event-kept :
      (type : Text) (kind : Kind) (w : Widget) → P w → P (fire_bit_event host type kind w)
  unfolding fire_bit_event
  fire_bit_event-kept type kind w q = fire-kept _ _ (fire-kept _ w q)

  inject_editable-kept :
      (i : ℕ) (w : Widget)
      → P w
      → P (
          inject_editable host opts i
            (create_editable host opts w).0
            (create_editable host opts w).1)
  unfolding create_editable inject_editable
  inject_editable-kept i w q = fire_bit_event-kept (codes "add") editable _ (
      apart.bits (insert_at i (fresh_editable w.next_uid) w.bits) _
        (apart.next_uid (w.next_uid + 1) w q))

  add_editable-kept : (i : ℕ) (w : Widget) → P w → P (add_editable host opts i w)
  unfolding add_editable
  add_editable-kept i w q = go opts.hide_editable_bits
    where
      v : Widget
      v =
          inject_editable host opts i (create_editable host opts w).0
            (create_editable host opts w).1

      go :
          (t : Bool)
          → P (if t then on_bits (modify_bit (create_editable host opts w).0.uid hide) v else v)
      go true = apart.bits _ v (inject_editable-kept i w q)
      go false = inject_editable-kept i w q

  note_value-kept : (b : Bit) (w : Widget) → P w → P (note_value host opts b w)
  unfolding note_value
  note_value-kept b w q = go opts.unique
    where
      go :
          (t : Bool)
          → P (
              if t
              then record w { index = w.index ++ unique_value host opts (get_value b) ∷ [] }
              else w)
      go true = apart.index _ w q
      go false = q

  inject_box-kept : (i : ℕ) (b : Bit) (w : Widget) → P w → P (inject_box host opts i b w)
  unfolding inject_box on_add
  inject_box-kept i b w q =
      fire_bit_event-kept (codes "add") box _ (go (wants_editable opts (prev i w1.bits)))
    where
      w1 : Widget
      w1 = note_value host opts b (on_bits (insert_at i b) w)

      noted : P w1
      noted = note_value-kept b (on_bits (insert_at i b) w) (apart.bits _ w q)

      go : (t : Bool) → P (if t then add_editable host opts i w1 else w1)
      go true = add_editable-kept i w1 noted
      go false = noted

  create_box-kept :
      (v : Value) (w : Widget) {b : Bit} {w1 : Widget}
      → create_box host opts v w ≡ some (b, w1)
      → P w
      → P w1
  create_box-kept v w {w1 = w1} e q =
      subst P {x = record w { next_uid = w.next_uid + 1 }} {y = w1}
        (unfold create_box in ground arith) (apart.next_uid (w.next_uid + 1) w q)

  pub add-kept : (v : Value) (w : Widget) → P w → P (add host opts v w)
  add-kept v w q = go (create_box host opts v w) refl
    where
      go : (made : Option (Bit × Widget)) → create_box host opts v w ≡ made → P (add host opts v w)
      go none e = unfold add in rw (e, add) q
      go (some (b, w1)) e =
          unfold add in
          rw (e, add) (inject_box-kept (after_last_box w1.bits) b w1 (create_box-kept v w e q))

  set_values-kept : (ts : List Text) (w : Widget) → P w → P (set_values host opts ts w)
  unfolding set_values
  set_values-kept [] w q = q
  set_values-kept ([] ∷ ts) w q = set_values-kept ts w q
  set_values-kept ((c ∷ t) ∷ ts) w q = set_values-kept ts _ (add-kept (plain_value (c ∷ t)) w q)

  clear-kept : (w : Widget) → P w → P (clear host opts w)
  unfolding clear
  clear-kept w q = go opts.end_editable_bit
    where
      w1 : Widget
      w1 = record w { bits = [] }

      go :
          (t : Bool)
          → P (
              if t
              then inject_editable host opts 0
                  (create_editable host opts w1).0
                  (create_editable host opts w1).1
              else w1)
      go true = inject_editable-kept 0 w1 (apart.bits [] w q)
      go false = apart.bits [] w q

  pub set_new_values-kept : (o : Text) (w : Widget) → P w → P (set_new_values host opts o w)
  unfolding set_new_values
  set_new_values-kept o w q =
      unfold run_handler in apart.handler 0 _ (set_values-kept (decode o) _ (clear-kept w q))
