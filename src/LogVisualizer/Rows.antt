-- ===== src/LogVisualizer/Rows.antt =====
-- The counts of the columns, against the sums over batches that they stand for.
use colt_core.Base.{
  ℕ, zero, suc, ◌+◌, ◌≡◌, refl, sym, Bool, true, not, ◌&&◌, List, [], ◌∷◌, ℤ, pos, negsuc, arith,
  inl, inr, Bool-cases, if◌then◌else◌,
}
use colt_core.LogVisualizer.{Counts, Batch, no_counts}
use colt_core.LogVisualizer.Draw.{is_before, in_column, add_rows, count_column}

-- The rows that are drawn.
pub data Row : Type 0 where
  of_errors : Row
  of_warnings : Row
  of_infos : Row

abbrev pub at_row : Row → Counts → ℕ
at_row of_errors m = m.errors
at_row of_warnings m = m.warnings
at_row of_infos m = m.infos

-- The messages of a row in the batches that pass a test.
unfoldable pub total : (Batch → Bool) → Row → List Batch → ℕ
total p r [] = 0
total p r (b ∷ bs) = (if p b then at_row r b.counts else 0) + total p r bs

-- The batch's time lies before `now` and not before the first `n` columns.
unfoldable pub in_chart : ℕ → ℕ → Batch → Bool
in_chart now n b = is_before now 0 b.time && not (is_before now n b.time)

-- The sum of a row over the first `n` columns.
unfoldable pub row_sum : ℕ → ℕ → Row → List Batch → ℕ
row_sum now zero r bs = 0
row_sum now (suc n) r bs = row_sum now n r bs + at_row r (count_column now n no_counts bs)

at_row-add_rows :
    (r : Row) (counts m : Counts) → at_row r (add_rows counts m) ≡ at_row r counts + at_row r m
unfolding add_rows
at_row-add_rows of_errors counts m = refl
at_row-add_rows of_warnings counts m = refl
at_row-add_rows of_infos counts m = refl

count_column-total :
    (now c : ℕ) (r : Row) (counts : Counts) (bs : List Batch)
    → at_row r (count_column now c counts bs) ≡ at_row r counts + total (in_column now c) r bs
unfolding count_column total
count_column-total now c r counts [] = omega arith
count_column-total now c r counts (b ∷ bs) = elim (Bool-cases (in_column now c b)) [
  | inl e ↦ rw e (
      omega (
        arith,
        count_column-total now c r (add_rows counts b.counts) bs,
        at_row-add_rows r counts b.counts,
      ))
  | inr e ↦ rw e (omega (arith, count_column-total now c r counts bs))
]

is_before-next : (now c : ℕ) (t : ℤ) → is_before now (suc c) t ≡ true → is_before now c t ≡ true
unfolding is_before
is_before-next now c (pos t) h = ground (arith, h)
is_before-next now c (negsuc t) h = ground (arith, h)

is_before-first : (now c : ℕ) (t : ℤ) → is_before now c t ≡ true → is_before now 0 t ≡ true
is_before-first now zero t h = h
is_before-first now (suc c) t h = is_before-first now c t (is_before-next now c t h)

-- One column more adds what lies in it.
in_chart-next :
    (now n x : ℕ) (b : Batch)
    → (if in_chart now (suc n) b then x else 0)
      ≡ (if in_chart now n b then x else 0) + (if in_column now n b then x else 0)
unfolding in_chart in_column
in_chart-next now n x b = ground (arith, is_before-next now n b.time, is_before-first now n b.time)

total-next :
    (now n : ℕ) (r : Row) (bs : List Batch)
    → total (in_chart now (suc n)) r bs ≡ total (in_chart now n) r bs + total (in_column now n) r bs
unfolding total
total-next now n r [] = refl
total-next now n r (b ∷ bs) =
    omega (arith, total-next now n r bs, in_chart-next now n (at_row r b.counts) b)

total-empty : (now : ℕ) (r : Row) (bs : List Batch) → total (in_chart now 0) r bs ≡ 0
unfolding total in_chart
total-empty now r [] = refl
total-empty now r (b ∷ bs) = ground (arith, total-empty now r bs)

at_row-no_counts : (r : Row) → at_row r no_counts ≡ 0
at_row-no_counts of_errors = refl
at_row-no_counts of_warnings = refl
at_row-no_counts of_infos = refl

-- The sum of a drawn row over the first `n` columns is the number of the row's messages in the batches
-- whose time lies before `now` and not before those columns: none is left out or counted twice.
pub row_sum-total :
    (now n : ℕ) (r : Row) (bs : List Batch) → row_sum now n r bs ≡ total (in_chart now n) r bs
unfolding row_sum
row_sum-total now zero r bs = sym (total-empty now r bs)
row_sum-total now (suc n) r bs = omega (
  arith,
  row_sum-total now n r bs,
  total-next now n r bs,
  count_column-total now n r no_counts bs,
  at_row-no_counts r,
)
