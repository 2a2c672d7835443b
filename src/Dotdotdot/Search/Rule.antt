-- ===== src/Dotdotdot/Search/Rule.antt =====
-- The invariant rule of the loop of `ellipsisElement` in dotdotdot.js.
use colt_core.Base.{
  ℕ, zero, suc, ◌≡◌, ◌⊎◌, ◌<◌, Bool, true, false, ◌&&◌, none, some, arith, if◌then◌else◌,
  Bool-cases, inl, inr, subst, ◌==◌,
}
use colt_core.Dotdotdot.Forest.{Forest}
use colt_core.Dotdotdot.Content.{Layout, Options, split, first}
use colt_core.Dotdotdot.Search.{Search, restart, is_open, is_tried, probe, fall_back, search}

abbrev pub IsStopped : Search → Type 0
IsStopped s = (is_open s ≡ false) ⊎ (is_tried s ≡ true)

-- A loop that is not entered.
pub search_closed :
    (layout : Layout) (opts : Options) (over : Forest → Bool) (n : ℕ) (s : Search)
    → 0 < n
    → is_open s ≡ false
    → search layout opts over n s ≡ some s
unfolding search
search_closed layout opts over zero s p e = elim p [ ]
search_closed layout opts over (suc n) s p e = ground arith

module _ (layout : Layout) (opts : Options) (over : Forest → Bool) (P : Search → Type 0)
    (restarts : (s : Search) → P s → P (restart none (split none (first s.parts)) s.nodes))
    (probes : (s : Search) → is_open s ≡ true → P s → P (probe layout opts over s)) where
  fall_back_inv : (s : Search) → P s → P (fall_back layout opts over s)
  unfolding fall_back
  fall_back_inv s p = go (opts.fallback_to_letter && (s.start_pos == 0 && s.past == 1))
    where
      go : (t : Bool) → P (if t then restart none (split none (first s.parts)) s.nodes else s)
      go true = restarts s p
      go false = p

  pub search_inv :
      (n : ℕ) (s r : Search) → P s → search layout opts over n s ≡ some r → P r × IsStopped r
  unfolding search
  search_inv zero s r p e = cc
  search_inv (suc n) s r p e = elim (Bool-cases (is_open s)) [
    | inr o ↦ let same : s ≡ r = ground arith in subst (λ t. P t × IsStopped t) same (p, inl o)
    | inl o ↦ elim (Bool-cases (is_tried s)) [
      | inl t ↦ let same : s ≡ r = ground arith in subst (λ t. P t × IsStopped t) same (p, inr t)
      | inr t ↦
          search_inv n (fall_back layout opts over (probe layout opts over s)) r
            (fall_back_inv (probe layout opts over s) (probes s o p)) (ground arith)
    ]
  ]
