-- ===== src/Trunk8/EatStr.antt =====
-- `eatStr` returns the cut text, from its cache or not, and keeps its cache true.
use colt_core.Base.{
  ℕ, ◌-◌, ◌≤◌, ◌<◌, ◌≡◌, refl, Bool, true, false, Option, none, some, [], ◌∷◌, ◌++◌, arith, Text,
  ◌==◌, text_eq_iff, if◌then◌else◌, length, take,
}
use mathlib.Core.List.{append_cancel_left, append_cancel_right}
use colt_core.Trunk8.{
  Browser, right, center, eat_left, side_text, ok, err, invalid_source, Cache, lookup, generate_key,
  guarded, eat_right, eat_center, eat_str,
}

module _ (browser : Browser) (str fill : Text) where
  open browser use {trim}

  -- The text without its last `bite` characters, with the fill.
  abbrev pub cut_right : ℕ → Text
  cut_right bite = if bite == 0 then str else trim (take (length str - bite) str) ++ fill

  -- What the cache holds for this text, cut on its right side, is right.
  abbrev pub IsTrue : Cache → Type 0
  IsTrue cache =
      (bite : ℕ) (v : Text)
      → lookup (generate_key browser str right bite fill) cache ≡ some v
      → v ≡ cut_right bite

  generate_key-injective :
      (m n : ℕ)
      → generate_key browser str right m fill ≡ generate_key browser str right n fill
      → m ≡ n
  unfolding generate_key
  generate_key-injective m n e =
      browser.decimal_injective m n
        (append_cancel_left (str ++ side_text right) _ _ (append_cancel_right _ _ fill e))

  remember-IsTrue :
      (bite : ℕ) (cache : Cache)
      → IsTrue cache
      → IsTrue ((generate_key browser str right bite fill, cut_right bite) ∷ cache)
  unfolding lookup
  remember-IsTrue bite cache t m v h = ground (
    arith,
    t m v,
    text_eq_iff (generate_key browser str right bite fill) (generate_key browser str right m fill),
    generate_key-injective bite m,
  )

  -- The cache after a call that finds nothing in it.
  after_call : ℕ → Cache → Cache
  after_call bite cache =
      if bite == 0
      then cache
      else (generate_key browser str right bite fill, cut_right bite) ∷ cache

  after_call-IsTrue : (bite : ℕ) (cache : Cache) → IsTrue cache → IsTrue (after_call bite cache)
  unfolding after_call
  after_call-IsTrue bite cache t = go (bite == 0)
    where
      go :
          (b : Bool)
          → IsTrue (
              if b
              then cache
              else (generate_key browser str right bite fill, cut_right bite) ∷ cache)
      go true = t
      go false = remember-IsTrue bite cache t

  module _ (bite : ℕ) (cache : Cache) (n : 0 < length str) (h : bite ≤ length str) where
    missed :
        lookup (generate_key browser str right bite fill) cache ≡ none
        → eat_right browser str bite fill cache ≡ ok (cut_right bite, after_call bite cache)
    unfolding eat_right guarded after_call
    missed e = rw (e, guarded) (ground arith)

    missed_empty :
        lookup (generate_key browser str right bite fill) cache ≡ some []
        → eat_right browser str bite fill cache ≡ ok (cut_right bite, after_call bite cache)
    unfolding eat_right guarded after_call
    missed_empty e = rw (e, guarded) (ground arith)

    hit :
        (c : ℕ) (v : Text)
        → lookup (generate_key browser str right bite fill) cache ≡ some (c ∷ v)
        → eat_right browser str bite fill cache ≡ ok (c ∷ v, cache)
    unfolding eat_right guarded
    hit c v e = rw (e, guarded)

    -- Where the cache holds only right results for the text and the fill, biting off at most the whole
    -- of a text that is not empty, on its right side, raises no error and returns the cut text, whether
    -- the cache has it or not, and what the cache holds stays right.
    pub eat_right_lem :
        IsTrue cache
        → (cache' : Cache) × (eat_right browser str bite fill cache ≡ ok (cut_right bite, cache'))
          × IsTrue cache'
    eat_right_lem t = go (lookup (generate_key browser str right bite fill) cache) refl
      where
        go :
            (found : Option Text)
            → lookup (generate_key browser str right bite fill) cache ≡ found
            → (cache' : Cache) × (eat_right browser str bite fill cache
                ≡ ok (cut_right bite, cache'))
              × IsTrue cache'
        go none e = (after_call bite cache, missed e, after_call-IsTrue bite cache t)
        go (some []) e = (after_call bite cache, missed_empty e, after_call-IsTrue bite cache t)
        go (some (c ∷ v)) e = (cache, rw (← t bite (c ∷ v) e) (hit c v e), t)

module _ (browser : Browser) where
  -- A text of one character cannot be cut in its middle: with nothing in the cache yet, the error is
  -- that the source is empty, since the second half is.
  pub eat_center_single :
      (c : ℕ) (fill : Text) → eat_str browser (c ∷ []) center 1 fill [] ≡ err invalid_source
  unfolding eat_str eat_center guarded eat_right eat_left lookup generate_key
  eat_center_single c fill = ground arith
