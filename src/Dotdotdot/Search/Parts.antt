-- ===== src/Dotdotdot/Search/Parts.antt =====
-- The parts that the binary search of dotdotdot.js works on.
use colt_core.Base.{
  ℕ, zero, suc, ◌≡◌, ◌⊎◌, refl, ap, ◌∙◌, Bool, true, ◌&&◌, none, some, List, [], ◌∷◌, Text,
  Bool-cases, inl, inr, ◌==◌, arith, subst,
}
use colt_core.Dotdotdot.Forest.{Forest}
use colt_core.Dotdotdot.Content.{Layout, Options, Separator, split, first}
use colt_core.Dotdotdot.Search.{Search, restart, is_open, is_tried, probe, fall_back, search}

abbrev pub letters : List Text → List Text
letters parts = split none (first parts)

-- The parts are the given ones, or the letters of the first of them, or the first of these alone.
abbrev pub IsOf : Separator → List Text → Bool → Search → Type 0
IsOf sep parts falls_back s =
    ((s.separator ≡ sep) × (s.parts ≡ parts))
    ⊎ ((falls_back ≡ true)
        × (s.separator ≡ none)
        × ((s.parts ≡ letters parts) ⊎ (s.parts ≡ letters (letters parts))))

letters-one : (t : Text) → letters (letters (split none t)) ≡ letters (split none t)
unfolding split
letters-one [] = refl
letters-one (c ∷ t) = refl

module _ (layout : Layout) (opts : Options) (over : Forest → Bool) (sep : Separator)
    (parts : List Text) where
  restart-IsOf :
      (s : Search) (nodes : Forest)
      → opts.fallback_to_letter ≡ true
      → IsOf sep parts opts.fallback_to_letter s
      → IsOf sep parts opts.fallback_to_letter (restart none (letters s.parts) nodes)
  restart-IsOf s nodes on (inl (e, p)) = inr (on, refl, inl (ap letters p))
  restart-IsOf s nodes on (inr (f, e, inl p)) = inr (on, refl, inr (ap letters p))
  restart-IsOf s nodes on (inr (f, e, inr p)) =
      inr (on, refl, inr (ap letters p ∙ letters-one (first parts)))

  probe_separator : (s : Search) → (probe layout opts over s).separator ≡ s.separator
  unfolding probe
  probe_separator s = ground arith

  probe_parts : (s : Search) → (probe layout opts over s).parts ≡ s.parts
  unfolding probe
  probe_parts s = ground arith

  probe-IsOf :
      (s : Search)
      → IsOf sep parts opts.fallback_to_letter s
      → IsOf sep parts opts.fallback_to_letter (probe layout opts over s)
  probe-IsOf s (inl (e, p)) = inl (probe_separator s ∙ e, probe_parts s ∙ p)
  probe-IsOf s (inr (f, e, inl p)) = inr (f, probe_separator s ∙ e, inl (probe_parts s ∙ p))
  probe-IsOf s (inr (f, e, inr p)) = inr (f, probe_separator s ∙ e, inr (probe_parts s ∙ p))

  fall_back-IsOf :
      (s : Search)
      → IsOf sep parts opts.fallback_to_letter s
      → IsOf sep parts opts.fallback_to_letter (fall_back layout opts over s)
  unfolding fall_back
  fall_back-IsOf s h =
      elim (Bool-cases (opts.fallback_to_letter && (s.start_pos == 0 && s.past == 1))) [
        | inl e ↦ rw e (restart-IsOf s s.nodes (ground (arith, e)) h)
        | inr e ↦ rw e h
      ]

  rounds-IsOf :
      (n : ℕ) (s r : Search)
      → IsOf sep parts opts.fallback_to_letter s
      → search layout opts over n s ≡ some r
      → IsOf sep parts opts.fallback_to_letter r
  unfolding search
  rounds-IsOf zero s r h e = cc
  rounds-IsOf (suc n) s r h e = elim (Bool-cases (is_open s)) [
    | inr o ↦
        let same : s ≡ r = ground arith in subst (IsOf sep parts opts.fallback_to_letter) same h
    | inl o ↦ elim (Bool-cases (is_tried s)) [
      | inl t ↦
          let same : s ≡ r = ground arith in subst (IsOf sep parts opts.fallback_to_letter) same h
      | inr t ↦
          rounds-IsOf n (fall_back layout opts over (probe layout opts over s)) r
            (fall_back-IsOf (probe layout opts over s) (probe-IsOf s h)) (ground arith)
    ]
  ]

  pub search-IsOf :
      (n : ℕ) (r : Search) (nodes : Forest)
      → search layout opts over n (restart sep parts nodes) ≡ some r
      → IsOf sep parts opts.fallback_to_letter r
  search-IsOf n r nodes e = rounds-IsOf n (restart sep parts nodes) r (inl (refl, refl)) e
