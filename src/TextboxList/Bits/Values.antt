-- ===== src/TextboxList/Bits/Values.antt =====
-- What a list of bits holds after `add`, `setValues`, `clear` and `setNewValues`.
use colt_core.Base.{
  ℕ, ◌+◌, ◌≤◌, ◌≡◌, refl, sym, ◌∙◌, ap, false, none, some, List, [], ◌∷◌, ◌++◌, map, append_assoc,
  append-nil, arith, Text, length, length-append, if◌then◌else◌,
}
use colt_core.TextboxList.Host.{Host, Value}
use colt_core.TextboxList.Codec.{encode, decode, filled, join, plain_value}
use colt_core.TextboxList.Codec.RoundTrip.{
  filled-decode-IsKept, filled-decode-join-decode, encode-IsKept,
}
use colt_core.TextboxList.Widget.{box, Options, Widget, get_values, update}
use colt_core.TextboxList.Bits.{
  inject_box, create_editable, create_box, count_boxes, after_last_box, over_max, taken, add,
  set_values, clear, set_new_values, new_bit,
}
use colt_core.TextboxList.Bits.Placing.{
  get_values-placed, get_values-after_last_box, count_boxes-get_values, inject_box_bits,
  inject_editable_bits, fresh_editable,
}

module _ (host : Host) (opts : Options) where
  -- A box that is made and placed behind the last one adds its value.
  get_values-inject_box :
      (v : Value) (w : Widget)
      → let (b, w1) = new_bit host opts box v w in
        get_values (inject_box host opts (after_last_box w1.bits) b w1).bits
        ≡ get_values w.bits ++ v ∷ []
  get_values-inject_box v w =
      let b = (new_bit host opts box v w).0 in
      let w1 = (new_bit host opts box v w).1 in
      let i = after_last_box w.bits in
      ap get_values (inject_box_bits host opts i b w1)
      ∙ get_values-placed opts i b w1.next_uid w.bits
      ∙ get_values-after_last_box b w.bits refl

  -- `add` puts the value behind the others, or changes no value where `max` or `unique` forbids it.
  get_values-add :
      (v : Value) (w : Widget)
      → get_values (add host opts v w).bits ≡ (
          if over_max host opts w.bits
          then get_values w.bits
          else if taken host opts v w
          then get_values w.bits
          else get_values w.bits ++ v ∷ [])
  unfolding add create_box
  get_values-add v w = ground (arith, get_values-inject_box v w)

  get_values-add_free :
      (v : Value) (w : Widget)
      → opts.max ≡ none
      → opts.unique ≡ false
      → get_values (add host opts v w).bits ≡ get_values w.bits ++ v ∷ []
  unfolding over_max taken
  get_values-add_free v w m q = ground (arith, get_values-add v w)

  -- `setValues` adds the texts that are not empty, in order, where nothing limits the boxes.
  get_values-set_values :
      (ts : List Text) (w : Widget)
      → opts.max ≡ none
      → opts.unique ≡ false
      → get_values (set_values host opts ts w).bits
        ≡ get_values w.bits ++ map plain_value (filled ts)
  unfolding set_values filled
  get_values-set_values [] w m q = sym (append-nil _)
  get_values-set_values ([] ∷ ts) w m q = get_values-set_values ts w m q
  get_values-set_values ((c ∷ t) ∷ ts) w m q =
      get_values-set_values ts (add host opts (plain_value (c ∷ t)) w) m q
      ∙ ap (λ vs. vs ++ map plain_value (filled ts))
          (get_values-add_free (plain_value (c ∷ t)) w m q)
      ∙ append_assoc (get_values w.bits) (plain_value (c ∷ t) ∷ []) (map plain_value (filled ts))

  get_values-clear : (w : Widget) → get_values (clear host opts w).bits ≡ []
  unfolding clear create_editable get_values
  get_values-clear w = ground (
    arith,
    inject_editable_bits host opts 0 (fresh_editable w.next_uid)
        (record w { bits = []; next_uid = w.next_uid + 1 }),
  )

  -- After `setNewValues` the boxes are the pieces of the text that are not empty, in order, and the
  -- form's field holds those pieces joined by a comma and a space, whatever the widget held before.
  -- This is where `max` is unset and `unique` is off, as on the page.
  pub set_new_values_lem :
      (o : Text) (w : Widget)
      → opts.max ≡ none
      → opts.unique ≡ false
      → (get_values (set_new_values host opts o w).bits ≡ map plain_value (filled (decode o)))
        × ((set_new_values host opts o w).original ≡ join (filled (decode o)))
  unfolding set_new_values update
  set_new_values_lem o w m q =
      (values, ap (encode host) values ∙ encode-IsKept host _ (filled-decode-IsKept o))
    where
      values :
          get_values (set_values host opts (decode o) (clear host opts w)).bits
          ≡ map plain_value (filled (decode o))
      values =
          get_values-set_values (decode o) (clear host opts w) m q
          ∙ ap (λ vs. vs ++ map plain_value (filled (decode o))) (get_values-clear w)

  -- Where `max` is unset and `unique` is off, setting the text that `setNewValues` left in the form's
  -- field leaves the same text there, whatever the widget held in between.
  pub set_new_values-set_new_values :
      (o : Text) (w v : Widget)
      → opts.max ≡ none
      → opts.unique ≡ false
      → (set_new_values host opts (set_new_values host opts o w).original v).original
        ≡ (set_new_values host opts o w).original
  set_new_values-set_new_values o w v m q =
      let kept = (set_new_values_lem o w m q).1 in
      (set_new_values_lem _ v m q).1
      ∙ ap (λ t. join (filled (decode t))) kept
      ∙ ap join (filled-decode-join-decode o)
      ∙ sym kept

  count_boxes-add :
      (v : Value) (w : Widget) (m : ℕ)
      → opts.max ≡ some m
      → count_boxes w.bits ≤ m
      → count_boxes (add host opts v w).bits ≤ m
  unfolding over_max
  count_boxes-add v w m e h = ground (
    arith,
    get_values-add v w,
    count_boxes-get_values w.bits,
    count_boxes-get_values (add host opts v w).bits,
    length-append (get_values w.bits) (v ∷ []),
  )

  count_boxes-set_values :
      (ts : List Text) (w : Widget) (m : ℕ)
      → opts.max ≡ some m
      → count_boxes w.bits ≤ m
      → count_boxes (set_values host opts ts w).bits ≤ m
  unfolding set_values
  count_boxes-set_values [] w m e h = h
  count_boxes-set_values ([] ∷ ts) w m e h = count_boxes-set_values ts w m e h
  count_boxes-set_values ((c ∷ t) ∷ ts) w m e h =
      count_boxes-set_values ts (add host opts (plain_value (c ∷ t)) w) m e
        (count_boxes-add (plain_value (c ∷ t)) w m e h)

  -- With `max` set, `setNewValues` leaves at most that many boxes, whatever the widget held before.
  pub count_boxes-set_new_values :
      (o : Text) (w : Widget) (m : ℕ)
      → opts.max ≡ some m
      → count_boxes (set_new_values host opts o w).bits ≤ m
  unfolding set_new_values update
  count_boxes-set_new_values o w m e = count_boxes-set_values (decode o) (clear host opts w) m e (
      omega
        (arith, count_boxes-get_values (clear host opts w).bits, ap length (get_values-clear w)))
