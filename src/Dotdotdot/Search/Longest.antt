-- ===== src/Dotdotdot/Search/Longest.antt =====
-- The binary search of dotdotdot.js finds the longest beginning that fits.
use colt_core.Base.{
  ℕ, ◌+◌, ◌≤◌, ◌<◌, ◌≡◌, ◌≢◌, ◌⊎◌, Bool, false, Option, none, some, List, [], ◌++◌, Text, length,
  take,
}
use colt_core.Dotdotdot.Forest.{Forest, text}
use colt_core.Dotdotdot.Content.{Layout, Options, Separator, join}
use colt_core.Dotdotdot.Search.{Search}

module _ (layout : Layout) (opts : Options) (over : Forest → Bool) (up : Forest) where
  -- The beginning up to the part `k`, with the ellipsis, fits.
  abbrev pub Fits : Separator → List Text → ℕ → Type 0
  Fits sep parts k = over (text (join sep (take (k + 1) parts) ++ opts.ellipsis) up) ≡ false

  -- Of the beginnings of the text, short of the whole, none fits, or the one at `position` is the
  -- longest that does.
  abbrev pub IsLongest : Separator → List Text → Option ℕ → Type 0
  IsLongest sep parts none = (k : ℕ) → k + 1 < length parts → ¬ Fits sep parts k
  IsLongest sep parts (some p) =
      Fits sep parts p × ((k : ℕ) → p < k → k + 1 < length parts → ¬ Fits sep parts k)

  -- The state at the head of the loop.
  record IsBracketed (s : Search) : Type 0 where
    content : Text
    written : s.nodes ≡ text content up
    nonempty : content ≢ []
    found :
        ((s.position ≡ none) × (s.start_pos ≡ 0))
        ⊎ ((s.position ≡ some s.start_pos) × Fits s.separator s.parts s.start_pos)
    above : (k : ℕ) → s.past ≤ k + 1 → k + 1 < length s.parts → ¬ Fits s.separator s.parts k
    range : (s.start_pos < s.past) ⊎ ((s.start_pos ≡ 0) × (s.past ≡ 0))
    tried :
        (m : ℕ)
        → s.mid_pos ≡ some m
        → ((s.start_pos ≡ m) × (s.position ≡ some m)) ⊎ (s.past ≡ m + 1)

  module _ (visible : opts.ellipsis ≢ [])
      (mono : (sep : Separator) (parts : List Text) (j k : ℕ)
        → j ≤ k
        → Fits sep parts k
        → Fits sep parts j) where
    -- What the loop leaves.
    abbrev pub Left : Search → Type 0
    Left r =
        IsLongest r.separator r.parts r.position × ((c : Text) × (r.nodes ≡ text c up) × (c ≢ []))
