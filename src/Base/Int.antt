-- ===== src/Base/Int.antt =====
-- Integers over the native numbers, as differences.
use Prim.Native.Nat.{ℕ, zero, suc, ◌+◌, ◌-◌}
use mathlib.Core.Path.{◌≡◌, refl, ap, sym, ◌∙◌}
use mathlib.Core.Bool.{Bool, false}
use native.Mathlib.Omega.{arith}
use colt_core.Base.Tests.{leb, ltb, if◌then◌else◌}

-- `negsuc n` is -(n + 1).
pub data ℤ : Type 0 where
  pos : ℕ → ℤ
  negsuc : ℕ → ℤ

abbrev pub pos_part : ℤ → ℕ
pos_part (pos n) = n
pos_part (negsuc n) = 0

abbrev pub neg_part : ℤ → ℕ
neg_part (pos n) = 0
neg_part (negsuc n) = suc n

-- a - b
unfoldable pub sub_ℕ : ℕ → ℕ → ℤ
sub_ℕ a b = if leb b a then pos (a - b) else negsuc (b - a - 1)

pub sub_ℕ_parts : (a b : ℕ) → pos_part (sub_ℕ a b) + b ≡ neg_part (sub_ℕ a b) + a
unfolding sub_ℕ
sub_ℕ_parts a b = ground arith

-- z + 1 and z - 1
abbrev pub add1 : ℤ → ℤ
add1 (pos n) = pos (suc n)
add1 (negsuc zero) = pos 0
add1 (negsuc (suc n)) = negsuc n

abbrev pub sub1 : ℤ → ℤ
sub1 (pos zero) = negsuc 0
sub1 (pos (suc n)) = pos n
sub1 (negsuc n) = negsuc (suc n)

-- n < z
abbrev pub ltz : ℕ → ℤ → Bool
ltz n (pos m) = ltb n m
ltz n (negsuc m) = false

pub sub1-add1 : (z : ℤ) → sub1 (add1 z) ≡ z
sub1-add1 (pos n) = refl
sub1-add1 (negsuc zero) = refl
sub1-add1 (negsuc (suc n)) = refl

pub ltz-sub_ℕ : (n a b : ℕ) → ltz n (sub_ℕ a b) ≡ ltb (n + b) a
unfolding sub_ℕ
ltz-sub_ℕ n a b = ground arith

pub sub_ℕ-suc-suc : (a b : ℕ) → sub_ℕ (suc a) (suc b) ≡ sub_ℕ a b
unfolding sub_ℕ
sub_ℕ-suc-suc a b = ground arith

pub sub1-sub_ℕ : (a b : ℕ) → sub1 (sub_ℕ a b) ≡ sub_ℕ a (suc b)
unfolding sub_ℕ
sub1-sub_ℕ a b = ground arith

add1-sub1 : (z : ℤ) → add1 (sub1 z) ≡ z
add1-sub1 (pos zero) = refl
add1-sub1 (pos (suc n)) = refl
add1-sub1 (negsuc n) = refl

pub add1-sub_ℕ : (a b : ℕ) → add1 (sub_ℕ a b) ≡ sub_ℕ (suc a) b
add1-sub_ℕ a b =
    ap add1 (sym (sub_ℕ-suc-suc a b) ∙ sym (sub1-sub_ℕ (suc a) b)) ∙ add1-sub1 (sub_ℕ (suc a) b)
