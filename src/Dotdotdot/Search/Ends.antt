-- ===== src/Dotdotdot/Search/Ends.antt =====
-- The binary search of dotdotdot.js ends.
use colt_core.Base.{
  ℕ, zero, suc, ◌+◌, ◌-◌, ◌*◌, ◌≤◌, ◌<◌, ◌≡◌, ◌⊎◌, refl, Bool, true, false, ◌&&◌, Option, none,
  some, List, [], ◌∷◌, arith, Text, ◌==◌, if◌then◌else◌, length, Bool-cases, inl, inr, ap,
}
use colt_core.Dotdotdot.Forest.{Forest}
use colt_core.Dotdotdot.Content.{Layout, Options, split, first}
use colt_core.Dotdotdot.Search.{Search, restart, is_open, is_tried, probe, fall_back, search}

-- What bounds the rounds on one list of parts: a round makes the range shorter, or it is the last but
-- one.
abbrev rounds : Search → ℕ
rounds s = 2 * (s.past - s.start_pos) + (if is_tried s then 0 else 1)

length-split-none : (t : Text) → length (split none t) ≡ length t
unfolding split
length-split-none [] = refl
length-split-none (c ∷ t) = omega (arith, length-split-none t)

first-split-none : (t : Text) → length (first (split none t)) ≤ 1
unfolding split
first-split-none [] = omega arith
first-split-none (c ∷ t) = omega arith

module _ (layout : Layout) (opts : Options) (over : Forest → Bool) where
  -- A round that is not the last.
  probe-rounds :
      (s : Search)
      → is_open s ≡ true
      → is_tried s ≡ false
      → (rounds (probe layout opts over s) < rounds s)
        × ((probe layout opts over s).parts ≡ s.parts)
  unfolding probe
  probe-rounds s o n = ground arith

  fall_back_cases :
      (s : Search)
      → (fall_back layout opts over s ≡ s)
        ⊎ (fall_back layout opts over s ≡ restart none (split none (first s.parts)) s.nodes)
  unfolding fall_back
  fall_back_cases s =
      elim (opts.fallback_to_letter && (s.start_pos == 0 && s.past == 1))
        as (λ b.
          let r : Search = if b then restart none (split none (first s.parts)) s.nodes else s in
          (r ≡ s) ⊎ (r ≡ restart none (split none (first s.parts)) s.nodes)) [
            | true ↦ inr refl
            | false ↦ inl refl
          ]

  abbrev Ends : ℕ → Search → Type 0
  Ends n s = (r : Search) × (search layout opts over n s ≡ some r)

  -- A round, and what it leads to.
  step :
      (n : ℕ) (s : Search)
      → (is_open s ≡ true
          → is_tried s ≡ false
          → Ends n (fall_back layout opts over (probe layout opts over s)))
      → Ends (suc n) s
  unfolding search
  step n s next = elim (Bool-cases (is_open s)) [
    | inl o ↦ elim (Bool-cases (is_tried s)) [
      | inl t ↦ (s, ground arith)
      | inr t ↦ let (r, e) = next o t in (r, ground arith)
    ]
    | inr o ↦ (s, ground arith)
  ]

  short-Ends :
      (n : ℕ) (parts : List Text) (nodes : Forest)
      → 0 < n
      → length parts ≤ 1
      → Ends n (restart none parts nodes)
  unfolding search
  short-Ends zero parts nodes p h = elim p [ ]
  short-Ends (suc n) parts nodes p h = (restart none parts nodes, ground arith)

  letters-Ends : (n : ℕ) (s : Search) → length (first s.parts) ≤ 1 → rounds s + 3 ≤ n → Ends n s
  letters-Ends zero s l h = absurd (omega arith)
  letters-Ends (suc n) s l h = step n s (λ o t.
      let p = probe layout opts over s in
      let (less, same) = probe-rounds s o t in
      elim (fall_back_cases p) [
        | inl e ↦ rw e (letters-Ends n p (rw same l) (omega arith))
        | inr e ↦ rw e (
            short-Ends n (split none (first p.parts)) p.nodes (omega arith)
              (rw (length-split-none (first p.parts), same) l))
      ])

  words-Ends : (n : ℕ) (s : Search) → rounds s + 2 * length (first s.parts) + 5 ≤ n → Ends n s
  words-Ends zero s h = absurd (omega arith)
  words-Ends (suc n) s h = step n s (λ o t.
      let p = probe layout opts over s in
      let (less, same) = probe-rounds s o t in
      let same_first : length (first p.parts) ≡ length (first s.parts) =
        ap (λ ts. length (first ts)) same in
      elim (fall_back_cases p) [
        | inl e ↦ rw e (words-Ends n p (omega arith))
        | inr e ↦ rw e (
            letters-Ends n (restart none (split none (first p.parts)) p.nodes)
              (first-split-none (first p.parts)) (omega (arith, length-split-none (first p.parts))))
      ])

  -- Twice the parts and twice the letters of the first part, and six, are rounds enough.
  pub search_ends :
      (sep : Option ℕ) (parts : List Text) (nodes : Forest)
      → (r : Search) × (search layout opts over
            (2 * length parts + 2 * length (first parts) + 6)
            (restart sep parts nodes)
          ≡ some r)
  search_ends sep parts nodes = words-Ends _ (restart sep parts nodes) (omega arith)
