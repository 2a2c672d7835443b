-- ===== src/Dotdotdot/Search/Found.antt =====
-- The position that the binary search of dotdotdot.js leaves is one that was tested.
use colt_core.Base.{
  ℕ, ◌+◌, ◌≡◌, ◌≢◌, refl, Bool, true, false, none, some, List, [], ◌∷◌, ◌++◌, arith, Text,
  if◌then◌else◌, Bool-cases, inl, inr, subst,
}
use colt_core.Dotdotdot.Forest.{Forest, text}
use colt_core.Dotdotdot.Content.{Layout, Options, Separator, split, first, set_text_content}
use colt_core.Dotdotdot.Search.Rule.{search_inv}
use colt_core.Dotdotdot.Search.{Search, restart, is_open, middle, beginning, probe, search}

module _ (layout : Layout) (opts : Options) (over : Forest → Bool) (up : Forest)
    (visible : opts.ellipsis ≢ []) where
  -- The first node is a text that is not empty, and the beginning at the position fits.
  pub record IsFound (s : Search) : Type 0 where
    pub content : Text
    pub written : s.nodes ≡ text content up
    pub nonempty : content ≢ []
    pub fits :
        (p : ℕ) → s.position ≡ some p → over (text (beginning s p ++ opts.ellipsis) up) ≡ false

  restart-IsFound :
      (sep : Separator) (parts : List Text) (c : Text)
      → c ≢ []
      → IsFound (restart sep parts (text c up))
  restart-IsFound sep parts c n = record {
    content = c;
    written = refl;
    nonempty = n;
    fits = λ p e. cc;
  }

  pub ending-nonempty : (t : Text) → t ++ opts.ellipsis ≢ []
  ending-nonempty [] e = visible e
  ending-nonempty (c ∷ t) e = cc

  pub write : (t c : Text) → c ≢ [] → set_text_content layout opts t (text c up) ≡ text t up
  unfolding set_text_content
  write t [] n = absurd (n refl)
  write t (c ∷ u) n = refl

  -- The states after a round, where the beginning does not fit and where it does.
  abbrev pub too_high : Search → Search
  too_high s = record s {
    mid_pos = some (middle s);
    past = middle s + 1;
    nodes = text (beginning s (middle s) ++ opts.ellipsis) up;
  }

  abbrev pub fitting : Search → Search
  fitting s = record s {
    mid_pos = some (middle s);
    position = some (middle s);
    start_pos = middle s;
    nodes = text (beginning s (middle s) ++ opts.ellipsis) up;
  }

  -- A round on a text that is not empty, by the test of the beginning in the middle.
  pub probe_lem :
      (s : Search) (c : Text)
      → s.nodes ≡ text c up
      → c ≢ []
      → probe layout opts over s ≡ (
          if over (text (beginning s (middle s) ++ opts.ellipsis) up)
          then too_high s
          else fitting s)
  unfolding probe
  probe_lem s c e n = rw (e, write (beginning s (middle s) ++ opts.ellipsis) c n) refl

  probe-IsFound : (s : Search) → is_open s ≡ true → IsFound s → IsFound (probe layout opts over s)
  probe-IsFound s o f =
      elim (Bool-cases (over (text (beginning s (middle s) ++ opts.ellipsis) up))) [
        | inl h ↦
            rw (probe_lem s f.content f.written f.nonempty, h)
              (record {
                content = beginning s (middle s) ++ opts.ellipsis;
                written = refl;
                nonempty = ending-nonempty (beginning s (middle s));
                fits = f.fits;
              })
        | inr h ↦
            rw (probe_lem s f.content f.written f.nonempty, h)
              (record {
                content = beginning s (middle s) ++ opts.ellipsis;
                written = refl;
                nonempty = ending-nonempty (beginning s (middle s));
                fits = λ p e.
                    let same : middle s ≡ p = ground arith in
                    subst (λ k. over (text (beginning s k ++ opts.ellipsis) up) ≡ false) same h;
              })
      ]

  pub search-IsFound :
      (n : ℕ) (sep : Separator) (parts : List Text) (c : Text) (r : Search)
      → c ≢ []
      → search layout opts over n (restart sep parts (text c up)) ≡ some r
      → IsFound r
  search-IsFound n sep parts c r h e =
      (search_inv layout opts over IsFound
        (λ s f.
          rw f.written (restart-IsFound none (split none (first s.parts)) f.content f.nonempty))
        probe-IsFound n (restart sep parts (text c up)) r (restart-IsFound sep parts c h) e).0
