-- ===== src/Dotdotdot/Content/Endings.antt =====
-- What `addEllipsis` of dotdotdot.js leaves of a text.
use colt_core.Base.{
  ℕ, ◌≡◌, inl, inr, refl, true, false, some, [], ◌∷◌, ◌++◌, arith, Text, if◌then◌else◌, All,
  Bool-cases, ap,
}
use colt_core.Dotdotdot.Content.{Layout, Options, add_ellipsis, strip_end, ends_sentence, last}

module _ (layout : Layout) (opts : Options) where
  abbrev pub IsRemoved : ℕ → Type 0
  IsRemoved c = layout.in_array c opts.remove ≡ true

  -- The last character is not one that is removed.
  abbrev pub IsStripped : Text → Type 0
  IsStripped t = (c : ℕ) → last t ≡ some c → layout.in_array c opts.remove ≡ false

  -- What is taken off the end of a text, and that no more can be taken.
  abbrev Stripped : Text → Text → Type 0
  Stripped t r = (u : Text) × (t ≡ r ++ u) × All IsRemoved u × IsStripped r

  strip_end_lem : (t : Text) → Stripped t (strip_end layout opts t)
  unfolding strip_end last
  strip_end_lem [] = ([], refl, tt, λ c e. cc)
  strip_end_lem (c ∷ t) = go (strip_end layout opts t) (strip_end_lem t)
    where
      go :
          (r : Text)
          → Stripped t r
          → (let v : Text = elim r [
            | [] ↦ if layout.in_array c opts.remove then [] else c ∷ []
            | d ∷ u ↦ c ∷ d ∷ u
          ] in
              Stripped (c ∷ t) v)
      go [] (u, e, removed, s) = elim (Bool-cases (layout.in_array c opts.remove)) [
        | inl y ↦ rw y (c ∷ u, ap (c ∷◌) e, (y, removed), λ d h. cc)
        | inr n ↦ rw n (u, ap (c ∷◌) e, removed, λ d h. ground arith)
      ]
      go (d ∷ r) (u, e, removed, s) = (u, ap (c ∷◌) e, removed, s)

  -- `addEllipsis` takes off the end of a text all the characters that `remove` holds, and no other one;
  -- then it appends the ellipsis, unless the last character that is left is in `noEllipsis`.
  pub add_ellipsis_lem :
      (t : Text)
      → (r u : Text) × (t ≡ r ++ u)
        × All IsRemoved u
        × IsStripped r
        × (add_ellipsis layout opts t
            ≡ (if ends_sentence layout opts r then r else r ++ opts.ellipsis))
  unfolding add_ellipsis
  add_ellipsis_lem t =
      let (u, e, removed, s) = strip_end_lem t in (strip_end layout opts t, u, e, removed, s, refl)
