-- ===== src/Dotdotdot/Ellipsis/Fits.antt =====
-- What `ellipsis` of dotdotdot.js leaves of a content of texts fits.
use colt_core.Base.{
  ℕ, ◌+◌, ◌*◌, ◌≤◌, ◌≡◌, ◌≢◌, ◌⊎◌, refl, true, false, Option, none, some, List, [], ◌∷◌, ◌++◌,
  arith, Text, if◌then◌else◌, length, Bool-cases, inl, inr, sym, ◌∙◌, subst, append-nil,
  append_assoc,
}
use colt_core.Dotdotdot.Forest.{Forest, end, text, element}
use colt_core.Dotdotdot.Content.{
  Layout, Options, word, letter, children, split, separator, first, get_text_content,
  set_text_content, add_ellipsis, ends_sentence,
}
use colt_core.Dotdotdot.Content.Endings.{add_ellipsis_lem}
use colt_core.Dotdotdot.Search.{Search, restart, beginning, search}
use colt_core.Dotdotdot.Search.Rule.{search_closed}
use colt_core.Dotdotdot.Search.Found.{IsFound, search-IsFound, write}
use colt_core.Dotdotdot.Ellipsis.{
  Outcome, kept, cut, After, and_then, cut_text, use_position, leave_parent, ellipsis_element,
  ellipsis, over, whole, is_void,
}
use colt_core.Dotdotdot.Ellipsis.Total.{cut_text-Returns}

-- Texts only.
abbrev pub IsFlat : Forest → Type 0
IsFlat end = Unit {0}
IsFlat (text t rest) = IsFlat rest
IsFlat (element tag kids rest) = ⊥

module _ (layout : Layout) (opts : Options) (max_height : ℕ) (after : After)
    (visible : opts.ellipsis ≢ [])
    (shrinks : (t u v : Text) (up : Forest)
      → layout.height (whole layout opts max_height after [] (text (t ++ v) up))
        ≤ layout.height (whole layout opts max_height after [] (text (t ++ (u ++ v)) up))) where
  -- The content backwards, with `after` behind it, fits.
  abbrev pub Shows : Forest → Type 0
  Shows f = layout.height (whole layout opts max_height after [] f) ≤ max_height

  -- What is kept fits or is nothing; what is cut fits.
  abbrev pub Good : Option Outcome → Type 0
  Good none = ⊥
  Good (some (kept f)) = IsFlat f × ((f ≡ end) ⊎ Shows f)
  Good (some (cut w)) = layout.height w ≤ max_height

  over-Shows : (f : Forest) → over layout opts max_height after [] f ≡ false → Shows f
  unfolding over
  over-Shows f e = ground arith

  drops :
      (t u : Text) (up : Forest)
      → layout.height (whole layout opts max_height after [] (text t up))
        ≤ layout.height (whole layout opts max_height after [] (text (t ++ u) up))
  drops t u up =
      subst
        (λ (v : Text).
          layout.height (whole layout opts max_height after [] (text v up))
          ≤ layout.height (whole layout opts max_height after [] (text (t ++ u) up)))
        (append-nil t)
        (subst
          (λ (v : Text).
            layout.height (whole layout opts max_height after [] (text (t ++ []) up))
            ≤ layout.height (whole layout opts max_height after [] (text (t ++ v) up)))
          (append-nil u) (shrinks t u [] up))

  -- The ending that was tested is no lower than the one that is shown.
  add_ellipsis-Shows :
      (t : Text) (up : Forest)
      → Shows (text (t ++ opts.ellipsis) up)
      → Shows (text (add_ellipsis layout opts t) up)
  add_ellipsis-Shows t up h =
      let (r, u, e, removed, stripped, shown) = add_ellipsis_lem layout opts t in
      let longer : Shows (text (r ++ (u ++ opts.ellipsis)) up) =
        rw (← append_assoc r u opts.ellipsis, ← e) h in
      let ended : Shows (text (r ++ opts.ellipsis) up) =
        omega (arith, shrinks r u opts.ellipsis up) in
      let bare : Shows (text r up) = omega (arith, drops r (u ++ opts.ellipsis) up) in
      elim (Bool-cases (ends_sentence layout opts r)) [
        | inl y ↦ rw (shown, y) bare
        | inr n ↦ rw (shown, n) ended
      ]

  use_position-Good :
      (up : Forest) (s : Search) (rest : Option Outcome)
      → IsFound layout opts (over layout opts max_height after []) up visible s
      → Good rest
      → Good (use_position layout opts max_height after [] s rest)
  unfolding use_position
  use_position-Good up s rest f g = go s.position refl
    where
      used : ℕ → Option Outcome
      used p = some (
          cut (
            whole layout opts max_height after []
              (set_text_content layout opts (add_ellipsis layout opts (beginning s p)) s.nodes)))

      fits : (p : ℕ) → s.position ≡ some p → Good (used p)
      fits p e =
          rw
            (
              f.written,
              write layout opts (over layout opts max_height after []) up visible
                  (add_ellipsis layout opts (beginning s p)) f.content f.nonempty,
            )
            (add_ellipsis-Shows (beginning s p) up (over-Shows _ (f.fits p e)))

      go :
          (found : Option ℕ)
          → s.position ≡ found
          → Good (elim found [
            | none ↦ rest
            | some p ↦ if is_void layout opts max_height after s.parts then rest else used p
          ])
      go none e = g
      go (some p) e =
          elim (is_void layout opts max_height after s.parts)
            as (λ b. Good (if b then rest else used p)) [ true ↦ g | false ↦ fits p e ]

  abbrev parts_of : Text → List Text
  parts_of t = split (separator opts.wrap t) t

  abbrev fuel : Text → ℕ
  fuel t = 2 * length (parts_of t) + 2 * length (first (parts_of t)) + 6

  cut_text_lem :
      (t : Text) (up : Forest)
      → cut_text layout opts max_height after [] (text t up)
        ≡ search layout opts
            (over layout opts max_height after [])
            (fuel t)
            (restart (separator opts.wrap t) (parts_of t) (text t up))
  unfolding cut_text get_text_content
  cut_text_lem t up = refl

  length-split_nil : length (split (separator opts.wrap []) []) ≤ 1
  unfolding separator split
  length-split_nil = elim opts.wrap as (λ w. length (split (separator w []) []) ≤ 1) [
    | word ↦ omega arith
    | letter ↦ omega arith
    | children ↦ omega arith
  ]

  -- An empty text leaves no position.
  cut_text_nil :
      (up : Forest)
      → cut_text layout opts max_height after [] (text [] up)
        ≡ some (restart (separator opts.wrap []) (split (separator opts.wrap []) []) (text [] up))
  unfolding cut_text get_text_content
  cut_text_nil up =
      search_closed layout opts (over layout opts max_height after []) _ _ (omega arith)
        (ground (arith, length-split_nil))

  cut_text-Good :
      (t : Text) (up : Forest) (rest : Option Outcome)
      → Good rest
      → (let r : Option Outcome = elim (cut_text layout opts max_height after [] (text t up)) [
        | none ↦ none
        | some s ↦ use_position layout opts max_height after [] s rest
      ] in
          Good r)
  cut_text-Good [] up rest g = rw (cut_text_nil up) (unfold use_position in g)
  cut_text-Good (c ∷ t) up rest g =
      let (s, e) = cut_text-Returns layout opts max_height after [] (text (c ∷ t) up) in
      rw e (
        use_position-Good up s rest
          (search-IsFound layout opts (over layout opts max_height after []) up visible
            (fuel (c ∷ t)) (separator opts.wrap (c ∷ t))
            (split (separator opts.wrap (c ∷ t)) (c ∷ t)) (c ∷ t) s (λ n. cc)
            (sym (cut_text_lem (c ∷ t) up) ∙ e))
          g)

  ellipsis_element-Good :
      (f : Forest) → IsFlat f → Good (ellipsis_element layout opts max_height after [] f)
  unfolding ellipsis_element leave_parent
  ellipsis_element-Good end h = (tt, inl refl)
  ellipsis_element-Good (text t up) h = cut_text-Good t up _ (ellipsis_element-Good up h)
  ellipsis_element-Good (element tag kids up) h = elim h [ ]

  and_then-Good :
      (r : Option Outcome) (k : Forest → Option Outcome)
      → Good r
      → ((f : Forest) → IsFlat f → (f ≡ end) ⊎ Shows f → Good (k f))
      → Good (and_then r k)
  and_then-Good none k g h = g
  and_then-Good (some (kept f)) k (flat, fits) h = h f flat fits
  and_then-Good (some (cut w)) k g h = g

  tested :
      (t : Text) (f : Forest)
      → IsFlat f
      → Good (
          if over layout opts max_height after [] (text t f)
          then ellipsis_element layout opts max_height after [] (text t f)
          else some (kept (text t f)))
  tested t f h = elim (Bool-cases (over layout opts max_height after [] (text t f))) [
    | inl y ↦ rw y (ellipsis_element-Good (text t f) h)
    | inr n ↦ rw n (h, inr (over-Shows (text t f) n))
  ]

  -- Where the ellipsis is not empty and a text is no higher without a piece of it: on a content of texts,
  -- from a content so far that is empty or fits, `ellipsis` comes to an end, and what it keeps with
  -- nothing cut, the element `after` behind it, is nothing or fits, and what it has cut fits.
  pub ellipsis-Good :
      (rest f : Forest)
      → IsFlat rest
      → IsFlat f
      → (f ≡ end) ⊎ Shows f
      → Good (ellipsis layout opts max_height after [] rest f)
  unfolding ellipsis
  ellipsis-Good end f hr hf g = (hf, g)
  ellipsis-Good (text t rest) f hr hf g =
      and_then-Good _ _ (tested t f hf) (λ k hk gk. ellipsis-Good rest k hr hk gk)
  ellipsis-Good (element tag kids rest) f hr hf g = elim hr [ ]
