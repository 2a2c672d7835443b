-- ===== src/LogPage/Batches.antt =====
-- The part of a batch that the log page keeps, and the texts of its links.
use colt_core.Base.{
  ℕ, suc, ◌+◌, ◌-◌, ◌≤◌, ◌<◌, ◌≡◌, ap, ◌∙◌, sym, inl, inr, List, [], ◌∷◌, ◌++◌, arith, length,
  length-append, drop, ltb, ltb→lt, Bool-cases, append_assoc, append-nil,
}
use colt_core.LogPage.Messages.{collect, tail, last}

module _ {ℓ} {A : Type ℓ} where
  pub last_behind : (n : ℕ) (x : A) (xs : List A) → n ≤ length xs → last n (x ∷ xs) ≡ last n xs
  last_behind n x xs h =
      let e : suc (length xs) - n ≡ suc (length xs - n) = omega arith in
      ap (λ (k : ℕ). drop k (x ∷ xs)) e

  pub last_all : (n : ℕ) (xs : List A) → length xs ≤ n → last n xs ≡ xs
  last_all n xs h = let e : length xs - n ≡ 0 = omega arith in ap (λ (k : ℕ). drop k xs) e

  -- A list that is one too long, without its first element.
  pub last-tail :
      (n : ℕ) (xs ys : List A) → n < length xs → last n (tail xs ++ ys) ≡ last n (xs ++ ys)
  last-tail n [] ys h = ground arith
  last-tail n (x ∷ xs) ys h = sym (last_behind n x (xs ++ ys) (omega (arith, length-append xs ys)))

  length-tail : {k : ℕ} (xs : List A) → length xs ≡ k + 1 → k ≤ 100 → length (tail xs) ≤ 100
  length-tail [] e h = omega arith
  length-tail (x ∷ xs) e h = omega (arith, e)

  collect-append : (kept ms : List A) → length kept ≤ 100 → collect kept ms ≡ last 100 (kept ++ ms)
  unfolding collect
  collect-append kept [] h = rw append-nil (sym (last_all 100 kept h))
  collect-append kept (m ∷ ms) h =
      let pushed = kept ++ m ∷ [] in
      let all : pushed ++ ms ≡ kept ++ m ∷ ms = append_assoc kept (m ∷ []) ms in
      elim (Bool-cases (ltb 100 (length pushed))) [
        | inl e ↦ rw e (
            collect-append (tail pushed) ms (length-tail pushed (length-append kept (m ∷ [])) h)
            ∙ last-tail 100 pushed ms (ltb→lt 100 (length pushed) e)
            ∙ ap (last 100) all)
        | inr e ↦ rw e (collect-append pushed ms (ground arith) ∙ ap (last 100) all)
      ]

  -- Of a batch, the last hundred messages are kept, in order, or all where there are no more.
  pub collect-last : (ms : List A) → collect [] ms ≡ last 100 ms
  collect-last ms = collect-append [] ms (omega arith)
