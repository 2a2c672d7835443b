-- ===== src/TextboxList/Fileset/Reports.antt =====
-- What the application is told: nothing of what it wrote itself, and the text that the user made.
use colt_core.Base.{
  ℕ, zero, suc, ◌+◌, ◌≡◌, ◌≢◌, refl, ◌∙◌, ap, true, false, Option, none, some, List, [], ◌∷◌, ◌++◌,
  arith, Text, if◌then◌else◌, insert_at, text_eq_iff,
}
use colt_core.TextboxList.Host.{Host}
use colt_core.TextboxList.Codec.{chk, encode, plain_value}
use colt_core.TextboxList.Widget.{
  box, editable, Bit, Options, Widget, get_values, update, fire_update, run_handler, init_events,
  differs,
}
use colt_core.TextboxList.Widget.Frame.{
  IsSynced, add_event-IsSynced, add_box_event, add_editable_event,
}
use colt_core.TextboxList.Bits.{
  on_bits, modify_bit, create_editable, inject_editable, note_value, add_editable, on_add,
  inject_box, create_box, new_bit, to_box, find_bit, index_of, inject_before, set_value, over_max,
  taken,
}
use colt_core.TextboxList.Bits.Kept.{IsApart, add-kept, set_new_values-kept}
use colt_core.TextboxList.Bits.Placing.{placed, fresh_editable, inject_box_bits, get_values-placed}
use colt_core.TextboxList.Fileset.{add_file, set_files}

-- The page does not listen, and has sent `c`.
pub record IsQuiet (c : List Text) (w : Widget) : Type 0 where
  pub deaf : w.input_from_user ≡ false
  pub sent : w.commands ≡ c

module _ (host : Host) (c : List Text) where
  run_handler-IsQuiet : (h : ℕ) (w : Widget) → IsQuiet c w → IsQuiet c (run_handler host h w)
  unfolding run_handler update fire_update
  run_handler-IsQuiet zero w q = ground arith
  run_handler-IsQuiet (suc zero) w q = ground arith
  run_handler-IsQuiet (suc (suc h)) w q = q

  IsQuiet-IsApart : IsApart host (IsQuiet c)
  IsQuiet-IsApart = record {
    handler = run_handler-IsQuiet;
    bits = λ bs w q. record { deaf = q.deaf; sent = q.sent };
    index = λ ts w q. record { deaf = q.deaf; sent = q.sent };
    next_uid = λ u w q. record { deaf = q.deaf; sent = q.sent };
  }

module _ (host : Host) (opts : Options) where
  -- What the application writes, by `addFile` or `setFiles`, is not reported back to it, and the page
  -- listens to the user afterwards.
  pub application_writes_lem :
      (str : Text) (w : Widget)
      → ((add_file host opts str w).commands ≡ w.commands)
        × ((set_files host opts str w).commands ≡ w.commands)
        × ((add_file host opts str w).input_from_user ≡ true)
        × ((set_files host opts str w).input_from_user ≡ true)
  unfolding add_file set_files
  application_writes_lem str w = (
    (add-kept host opts quiet (IsQuiet-IsApart host w.commands) (plain_value str) w0 q0).sent,
    (set_new_values-kept host opts quiet (IsQuiet-IsApart host w.commands) str w0 q0).sent,
    refl,
    refl,
  )
    where
      quiet : Widget → Type 0
      quiet = IsQuiet w.commands

      w0 : Widget
      w0 = record w { input_from_user = false }

      q0 : IsQuiet w.commands w0
      q0 = record { deaf = refl; sent = refl }

-- What an editable bit that is added leaves alone: the page has nothing to do with it.
record Unsent (w v : Widget) : Type 0 where
  commands : v.commands ≡ w.commands
  current_value : v.current_value ≡ w.current_value
  events : v.events ≡ w.events
  input_from_user : v.input_from_user ≡ w.input_from_user

chk_filled : (t : Text) → t ≢ [] → chk (some t) ≡ true
chk_filled [] n = absurd (n refl)
chk_filled (c ∷ t) n = refl

module _ (host : Host) (opts : Options) where
  add_editable-Unsent :
      (i : ℕ) (w : Widget) → w.events ≡ init_events → Unsent w (add_editable host opts i w)
  unfolding add_editable create_editable inject_editable update
  add_editable-Unsent i w e = ground (
    arith,
    add_editable_event host
        (record w {
          next_uid = w.next_uid + 1;
          bits = insert_at i (fresh_editable w.next_uid) w.bits;
        })
        e,
  )

  on_add-Unsent :
      (i : ℕ) (b : Bit) (w : Widget) → w.events ≡ init_events → Unsent w (on_add host opts i b w)
  unfolding on_add note_value
  on_add-Unsent i b w e = ground (arith, add_editable-Unsent i (note_value host opts b w))

  -- What `w` was told, with the text that `r` has.
  abbrev pub Reports : Widget → Widget → Type 0
  Reports w r =
      (r.current_value ≡ some r.original)
      × (r.commands ≡ (
          if differs w.current_value r.original then w.commands ++ r.original ∷ [] else w.commands))

  known : (o : Option Text) (t : Text) → differs o t ≡ false → o ≡ some t
  known none t h = cc
  known (some s) t h = ground (arith, text_eq_iff t s)

  fire_update-Reports : (v : Widget) → v.input_from_user ≡ true → Reports v (fire_update host v)
  unfolding fire_update update
  fire_update-Reports v listens =
      ground (arith, known v.current_value (encode host (get_values v.bits)))

  -- A box that is put in place while the page listens: the application is sent the new text unless
  -- the page has that text already, and the page has it afterwards.
  inject_box-Reports :
      (i : ℕ) (b : Bit) (w : Widget)
      → w.events ≡ init_events
      → w.input_from_user ≡ true
      → Reports w (inject_box host opts i b w)
  unfolding inject_box
  inject_box-Reports i b w e listens =
      rw (add_box_event host v kept.0)
        (reports (fire_update-Reports (update host v) (unfold update in kept.1)))
    where
      v : Widget
      v = on_add host opts i b (on_bits (insert_at i b) w)

      unsent : Unsent w v
      unsent = ground (arith, on_add-Unsent i b (on_bits (insert_at i b) w) e)

      kept : (v.events ≡ init_events) × (v.input_from_user ≡ true)
      kept = (unsent.events ∙ e, unsent.input_from_user ∙ listens)

      reports :
          Reports (update host v) (fire_update host (update host v))
          → Reports w (fire_update host (update host v))
      reports h = unfold update in ground (arith, unsent)

  inject_box_original :
      (i : ℕ) (b : Bit) (w : Widget)
      → w.events ≡ init_events
      → (inject_box host opts i b w).original ≡ encode host (get_values (insert_at i b w.bits))
  inject_box_original i b w e =
      synced
      ∙ ap (λ bs. encode host (get_values bs)) (inject_box_bits host opts i b w)
      ∙ ap (encode host) (get_values-placed opts i b w.next_uid w.bits)
    where
      unsent : Unsent (on_bits (insert_at i b) w) (on_add host opts i b (on_bits (insert_at i b) w))
      unsent = on_add-Unsent i b (on_bits (insert_at i b) w) e

      synced : IsSynced host (inject_box host opts i b w)
      synced = unfold inject_box in add_event-IsSynced host box _ (unsent.events ∙ e)

  -- The box of a text, and the state in which its identity is used up.
  abbrev pub text_box : Text → Widget → Bit × Widget
  text_box t w = new_bit host opts box (plain_value t) w

  module _ (u i : ℕ) (e : Bit) (w : Widget) (no_max : opts.max ≡ none)
      (not_unique : opts.unique ≡ false) (found : find_bit u w.bits ≡ some e)
      (place : index_of u w.bits ≡ some i) (kind : e.kind ≡ editable)
      (written : e.value.plain ≢ []) where
    to_box_steps :
        to_box host opts u w
        ≡ on_bits
            (modify_bit u (set_value (plain_value [])))
            (inject_box host opts i (text_box e.value.plain w).0 (text_box e.value.plain w).1)
    unfolding to_box create_box over_max taken inject_before
    to_box_steps = rw (found, to_box) (ground (arith, chk_filled e.value.plain written))

    -- The user turns the text of a field into a box, on a page that listens and has the event table
    -- that it starts with, where nothing limits the boxes: the bits are those before, with the box of that
    -- text at the place of the field, so that the field follows it, with the editable bit that the box may
    -- want in front of it, and with no text in the field; the form's field holds the new values, the page
    -- has that text, and the application is sent it, unless the page had it before.
    pub to_box-Reports :
        w.events ≡ init_events
        → w.input_from_user ≡ true
        → let r = to_box host opts u w in
          let b = (text_box e.value.plain w).0 in
          let w1 = (text_box e.value.plain w).1 in
          (r.bits ≡ modify_bit u (set_value (plain_value [])) (placed opts i b w1.next_uid w.bits))
          × (r.original
              ≡ encode host (get_values (insert_at i (text_box e.value.plain w).0 w.bits)))
          × Reports w r
    to_box-Reports ev listens =
        let (b, w1) = text_box e.value.plain w in
        rw to_box_steps (
          ap (modify_bit u (set_value (plain_value []))) (inject_box_bits host opts i b w1),
          inject_box_original i b w1 ev,
          inject_box-Reports i b w1 ev listens,
        )
