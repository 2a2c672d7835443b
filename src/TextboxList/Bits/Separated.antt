-- ===== src/TextboxList/Bits/Separated.antt =====
-- Every box stands between two editable bits: the order that `onAdd` sees to.
use colt_core.Base.{
  ℕ, zero, suc, ◌≡◌, refl, Bool, true, false, ◌&&◌, some, List, [], ◌∷◌, arith, get_elem?,
  insert_at,
}
use colt_core.TextboxList.Widget.{box, editable, Bit, is_kind}
use colt_core.TextboxList.Bits.{modify_bit}

-- Whether the bits are well placed behind an editable bit (`true`), or behind a box or at the start.
abbrev pub sep : Bool → List Bit → Bool
sep p [] = p
sep p (b ∷ bs) = elim b.kind [ box ↦ p && sep false bs | editable ↦ sep true bs ]

-- The list begins and ends with an editable bit, and no two boxes stand side by side.
abbrev pub IsSeparated : List Bit → Type 0
IsSeparated bs = sep false bs ≡ true

-- Whether an editable bit is in front of the place `i`, where `p` says so of the place 0.
abbrev pub editable_before : Bool → ℕ → List Bit → Bool
editable_before p zero bs = p
editable_before p (suc i) [] = p
editable_before p (suc i) (b ∷ bs) = editable_before (is_kind b.kind editable) i bs

pub sep-modify_bit :
    (p : Bool) (u : ℕ) (f : Bit → Bit) (bs : List Bit)
    → ((b : Bit) → (f b).kind ≡ b.kind)
    → sep p (modify_bit u f bs) ≡ sep p bs
unfolding modify_bit
sep-modify_bit p u f [] h = refl
sep-modify_bit p u f (b ∷ bs) h =
    ground (arith, h b, sep-modify_bit true u f bs h, sep-modify_bit false u f bs h)

-- A box in front of an editable bit, behind an editable bit.
pub sep-insert_at :
    (p : Bool) (i : ℕ) (b e : Bit) (bs : List Bit)
    → b.kind ≡ box
    → sep p bs ≡ true
    → get_elem? bs i ≡ some e
    → e.kind ≡ editable
    → editable_before p i bs ≡ true
    → sep p (insert_at i b bs) ≡ true
sep-insert_at p i b e [] hb h g he q = cc
sep-insert_at p zero b e (c ∷ bs) hb h g he q = ground arith
sep-insert_at p (suc i) b e (c ∷ bs) hb h g he q =
    ground (arith, sep-insert_at true i b e bs hb, sep-insert_at false i b e bs hb)

-- A box with a new editable bit in front of it, behind a box or at the start.
pub sep-insert_at-insert_at :
    (p : Bool) (i : ℕ) (b n e : Bit) (bs : List Bit)
    → b.kind ≡ box
    → n.kind ≡ editable
    → sep p bs ≡ true
    → get_elem? bs i ≡ some e
    → e.kind ≡ editable
    → sep p (insert_at i n (insert_at i b bs)) ≡ true
sep-insert_at-insert_at p i b n e [] hb hn h g he = cc
sep-insert_at-insert_at p zero b n e (c ∷ bs) hb hn h g he = ground arith
sep-insert_at-insert_at p (suc i) b n e (c ∷ bs) hb hn h g he = ground (
  arith,
  sep-insert_at-insert_at true i b n e bs hb hn,
  sep-insert_at-insert_at false i b n e bs hb hn,
)
