-- ===== src/TextboxList/Bits/Order.antt =====
-- `inject`, `toBox`, `add` and `setNewValues` keep the order of the bits.
use colt_core.Base.{
  ℕ, zero, suc, ◌+◌, ◌≡◌, ◌⊎◌, refl, Bool, true, false, ◌&&◌, not, Option, none, some, List, [],
  ◌∷◌, arith, Text, get_elem?, insert_at, Bool-cases, inl, inr,
}
use colt_core.TextboxList.Host.{Host, Value}
use colt_core.TextboxList.Codec.{chk, label, plain_value, decode}
use colt_core.TextboxList.Widget.{
  Kind, box, editable, Bit, Options, Widget, is_kind, get_value, update,
}
use colt_core.TextboxList.Bits.{
  wants_editable, prev, hide, set_value, create_editable, inject_box, index_of, find_bit,
  create_box, inject_before, to_box, add, set_values, clear, set_new_values, after_last_box,
}
use colt_core.TextboxList.Bits.Separated.{
  sep, IsSeparated, editable_before, sep-modify_bit, sep-insert_at, sep-insert_at-insert_at,
}
use colt_core.TextboxList.Bits.Placing.{
  placed, fresh_editable, inject_box_bits, inject_editable_bits,
}

prev_before :
    (p : Bool) (j : ℕ) (b e : Bit) (bs : List Bit)
    → get_elem? bs (suc j) ≡ some e
    → (c : Bit) × (get_elem? (insert_at (suc j) b bs) j ≡ some c)
      × (editable_before p (suc j) bs ≡ is_kind c.kind editable)
prev_before p j b e [] h = cc
prev_before p zero b e (c ∷ bs) h = (c, refl, refl)
prev_before p (suc j) b e (c ∷ bs) h = prev_before (is_kind c.kind editable) j b e bs h

module _ (opts : Options) (start : opts.start_editable_bit ≡ true)
    (between : opts.in_between_editable_bits ≡ true) where
  wants-editable_before :
      (i : ℕ) (b e : Bit) (bs : List Bit)
      → get_elem? bs i ≡ some e
      → wants_editable opts (prev i (insert_at i b bs)) ≡ not (editable_before false i bs)
  unfolding wants_editable
  wants-editable_before zero b e bs h = start
  wants-editable_before (suc j) b e bs h =
      let (c, found, kind) = prev_before false j b e bs h in ground arith

  -- A box that is placed in front of an editable bit keeps the order.
  placed-IsSeparated :
      (i : ℕ) (b e : Bit) (u : ℕ) (bs : List Bit)
      → b.kind ≡ box
      → get_elem? bs i ≡ some e
      → e.kind ≡ editable
      → IsSeparated bs
      → IsSeparated (placed opts i b u bs)
  placed-IsSeparated i b e u bs hb h he s = ground (
    arith,
    wants-editable_before i b e bs h,
    sep-insert_at false i b e bs hb s h he,
    sep-insert_at-insert_at false i b (fresh_editable u) e bs hb refl s h he,
    sep-modify_bit false u hide (insert_at i (fresh_editable u) (insert_at i b bs)) (λ c. refl),
  )

-- The place of a bit in the list.
index_of-find_bit :
    (u : ℕ) (bs : List Bit) (e : Bit) (i : ℕ)
    → find_bit u bs ≡ some e
    → index_of u bs ≡ some i
    → get_elem? bs i ≡ some e
unfolding index_of find_bit
index_of-find_bit u [] e i h k = cc
index_of-find_bit u (b ∷ bs) e zero h k = ground arith
index_of-find_bit u (b ∷ bs) e (suc i) h k = ground (arith, index_of-find_bit u bs e i)

abbrev EditableAt : ℕ → List Bit → Type 0
EditableAt i bs = (e : Bit) × (get_elem? bs i ≡ some e) × (e.kind ≡ editable)

module _ (c : Bit) (bs : List Bit) where
  after_last_box-box : c.kind ≡ box → after_last_box (c ∷ bs) ≡ suc (after_last_box bs)
  unfolding after_last_box
  after_last_box-box e = ground arith

  after_last_box-editable :
      c.kind ≡ editable
      → EditableAt (after_last_box bs) bs
      → EditableAt (after_last_box (c ∷ bs)) (c ∷ bs)
  unfolding after_last_box
  after_last_box-editable e (x, g, k) = go (after_last_box bs) refl
    where
      go : (r : ℕ) → after_last_box bs ≡ r → EditableAt (after_last_box (c ∷ bs)) (c ∷ bs)
      go zero z = (c, rw (z, e, after_last_box), e)
      go (suc r) z = (x, rw (z, after_last_box) (rw z at g), k)

  after_last_box-editable_zero :
      c.kind ≡ editable → after_last_box bs ≡ 0 → EditableAt (after_last_box (c ∷ bs)) (c ∷ bs)
  unfolding after_last_box
  after_last_box-editable_zero e z = (c, rw (z, e, after_last_box), e)

after_last_box_cases :
    (p : Bool) (bs : List Bit)
    → sep p bs ≡ true
    → EditableAt (after_last_box bs) bs ⊎ ((after_last_box bs ≡ 0) × (p ≡ true))
after_last_box_cases p [] s = inr (unfold after_last_box in refl, s)
after_last_box_cases p (c ∷ bs) s = go c.kind refl (λ q h. after_last_box_cases q bs h)
  where
    behind_box :
        (EditableAt (after_last_box bs) bs ⊎ ((after_last_box bs ≡ 0) × (false ≡ true)))
        → EditableAt (after_last_box bs) bs
    behind_box (inl found) = found
    behind_box (inr (z, absurdity)) = cc

    behind_editable :
        c.kind ≡ editable
        → EditableAt (after_last_box bs) bs ⊎ ((after_last_box bs ≡ 0) × (true ≡ true))
        → EditableAt (after_last_box (c ∷ bs)) (c ∷ bs)
    behind_editable e (inl found) = after_last_box-editable c bs e found
    behind_editable e (inr (z, _)) = after_last_box-editable_zero c bs e z

    go :
        (k : Kind)
        → c.kind ≡ k
        → ((q : Bool)
            → sep q bs ≡ true
            → EditableAt (after_last_box bs) bs ⊎ ((after_last_box bs ≡ 0) × (q ≡ true)))
        → EditableAt (after_last_box (c ∷ bs)) (c ∷ bs)
          ⊎ ((after_last_box (c ∷ bs) ≡ 0) × (p ≡ true))
    go box e ih =
        let (x, g, k) = behind_box (ih false (ground arith)) in
        inl (x, rw (after_last_box-box c bs e) g, k)
    go editable e ih = inl (behind_editable e (ih true (ground arith)))

module _ (host : Host) (opts : Options) (start : opts.start_editable_bit ≡ true)
    (between : opts.in_between_editable_bits ≡ true) where
  create_box-some :
      (v : Value) (w : Widget) {b : Bit} {w1 : Widget}
      → create_box host opts v w ≡ some (b, w1)
      → (b.kind ≡ box) × (w1.bits ≡ w.bits)
  unfolding create_box
  create_box-some v w h = ground arith

  inject_box-IsSeparated :
      (i : ℕ) (b e : Bit) (w : Widget)
      → b.kind ≡ box
      → get_elem? w.bits i ≡ some e
      → e.kind ≡ editable
      → IsSeparated w.bits
      → IsSeparated (inject_box host opts i b w).bits
  inject_box-IsSeparated i b e w hb h he s =
      rw inject_box_bits (placed-IsSeparated opts start between i b e w.next_uid w.bits hb h he s)

  inject_before-IsSeparated :
      (u : ℕ) (b e : Bit) (w : Widget)
      → b.kind ≡ box
      → find_bit u w.bits ≡ some e
      → e.kind ≡ editable
      → IsSeparated w.bits
      → IsSeparated (inject_before host opts u (b, w)).bits
  unfolding inject_before
  inject_before-IsSeparated u b e w hb h he s = go (index_of u w.bits) refl
    where
      go :
          (found : Option ℕ)
          → index_of u w.bits ≡ found
          → IsSeparated (inject_before host opts u (b, w)).bits
      go none k = rw (k, inject_before) s
      go (some i) k =
          rw (k, inject_before)
            (rw
              (sep-modify_bit false u (set_value (plain_value [])) (inject_box host opts i b w).bits
                (λ c. refl))
              (inject_box-IsSeparated i b e w hb (index_of-find_bit u w.bits e i h k) he s))

  -- With `startEditableBit` and `inBetweenEditableBits` on, turning the text of an input field into a
  -- box keeps every box between two editable bits, whether the box is made or not.
  pub to_box-IsSeparated :
      (u : ℕ) (w : Widget) → IsSeparated w.bits → IsSeparated (to_box host opts u w).bits
  to_box-IsSeparated u w s = on_found (find_bit u w.bits) refl
    where
      on_made :
          (e : Bit) (made : Option (Bit × Widget))
          → find_bit u w.bits ≡ some e
          → e.kind ≡ editable
          → create_box host opts (get_value e) w ≡ made
          → (let r : Widget = elim made [ none ↦ w | some m ↦ inject_before host opts u m ] in
              IsSeparated r.bits)
      on_made e none h he c = s
      on_made e (some (b, w1)) h he c =
          let (kind, same) = create_box-some (get_value e) w c in
          inject_before-IsSeparated u b e w1 kind (rw same h) he (rw same s)

      on_found :
          (found : Option Bit) → find_bit u w.bits ≡ found → IsSeparated (to_box host opts u w).bits
      on_found none h = unfold to_box in rw (h, to_box) s
      on_found (some e) h =
          elim (Bool-cases (is_kind e.kind editable && chk (some (label (get_value e))))) [
            | inl t ↦
                unfold to_box in
                rw (h, t, to_box)
                  (on_made e (create_box host opts (get_value e) w) h (ground arith) refl)
            | inr t ↦ unfold to_box in rw (h, t, to_box) s
          ]

  -- With `startEditableBit` and `inBetweenEditableBits` on, `add` keeps every box between two editable
  -- bits, whether the box is made or not.
  pub add-IsSeparated :
      (v : Value) (w : Widget) → IsSeparated w.bits → IsSeparated (add host opts v w).bits
  unfolding add
  add-IsSeparated v w s = go (create_box host opts v w) refl
    where
      at_place :
          (b : Bit) (w1 : Widget)
          → b.kind ≡ box
          → IsSeparated w1.bits
          → EditableAt (after_last_box w1.bits) w1.bits
            ⊎ ((after_last_box w1.bits ≡ 0) × (false ≡ true))
          → IsSeparated (inject_box host opts (after_last_box w1.bits) b w1).bits
      at_place b w1 kind s1 (inl (e, g, he)) =
          inject_box-IsSeparated (after_last_box w1.bits) b e w1 kind g he s1
      at_place b w1 kind s1 (inr (z, absurdity)) = cc

      go :
          (made : Option (Bit × Widget))
          → create_box host opts v w ≡ made
          → (let r : Widget = elim made [
            | none ↦ w
            | some (b, w1) ↦ inject_box host opts (after_last_box w1.bits) b w1
          ] in
              IsSeparated r.bits)
      go none c = s
      go (some (b, w1)) c =
          let (kind, same) = create_box-some v w c in
          let s1 : IsSeparated w1.bits = rw same s in
          at_place b w1 kind s1 (after_last_box_cases false w1.bits s1)

  pub set_values-IsSeparated :
      (ts : List Text) (w : Widget)
      → IsSeparated w.bits
      → IsSeparated (set_values host opts ts w).bits
  unfolding set_values
  set_values-IsSeparated [] w s = s
  set_values-IsSeparated ([] ∷ ts) w s = set_values-IsSeparated ts w s
  set_values-IsSeparated ((c ∷ t) ∷ ts) w s =
      set_values-IsSeparated ts _ (add-IsSeparated (plain_value (c ∷ t)) w s)

  pub clear-IsSeparated :
      (w : Widget) → opts.end_editable_bit ≡ true → IsSeparated (clear host opts w).bits
  unfolding clear create_editable
  clear-IsSeparated w e = ground (
    arith,
    inject_editable_bits host opts 0 (fresh_editable w.next_uid)
        (record w { bits = []; next_uid = w.next_uid + 1 }),
  )

  -- With `startEditableBit`, `inBetweenEditableBits` and `endEditableBit` on, `setNewValues` leaves
  -- every box between two editable bits, whatever the widget held before.
  pub set_new_values-IsSeparated :
      (o : Text) (w : Widget)
      → opts.end_editable_bit ≡ true
      → IsSeparated (set_new_values host opts o w).bits
  unfolding set_new_values update
  set_new_values-IsSeparated o w e =
      set_values-IsSeparated (decode o) (clear host opts w) (clear-IsSeparated w e)
