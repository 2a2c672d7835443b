-- ===== src/Trunk8/Truncate/Search.antt =====
-- The binary search ends, with a bite that fits, and with the longest one where a shorter text is
-- never the higher one.
use colt_core.Base.{
  ℕ, zero, suc, ◌+◌, ◌-◌, ◌≤◌, ◌<◌, ◌≡◌, true, false, Option, some, ◌⊎◌, inl, inr, arith, Text, ltb,
  ltb→lt, length, Bool-cases,
}
use colt_core.Trunk8.{Browser, right, Result, ok, Cache, eat_str}
use colt_core.Trunk8.EatStr.{cut_right, IsTrue, eat_right_lem}
use colt_core.Trunk8.Truncate.{Settings, limit, longer, middle, search}

module _ (browser : Browser) (s : Settings) (str : Text) (on_right : s.side ≡ right) where
  open browser use {height}

  -- The text with `k` characters kept.
  abbrev pub kept : ℕ → Text
  kept k = cut_right browser str s.fill (length str - k)

  abbrev pub Fits : Text → Type 0
  Fits t = height t ≤ limit browser s

  eat_str_lem :
      (k : ℕ) (cache : Cache)
      → k < length str
      → IsTrue browser str s.fill cache
      → (cache' : Cache) × (eat_str browser str s.side (length str - k) s.fill cache
          ≡ ok (kept k, cache'))
        × IsTrue browser str s.fill cache'
  eat_str_lem k cache h t = rw on_right (
      unfold eat_str in
      eat_right_lem browser str s.fill (length str - k) cache (omega arith) (omega arith) t)

  -- What an invariant of the rounds gives at the end.
  pub record Ends (Inv : ℕ → ℕ → Text → Type 0) (found : Option (Result (Text × Cache)))
      : Type 0 where
    pub bite : Text
    pub cache : Cache
    pub lower : ℕ
    pub past : ℕ
    pub found_it : found ≡ some (ok (bite, cache))
    pub crossed : past ≤ lower
    pub inv : Inv lower past bite
    pub true_cache : IsTrue browser str s.fill cache

  module _ (Inv : ℕ → ℕ → Text → Type 0)
      (too_high : (l p : ℕ) (m : Text)
        → l < p
        → p ≤ length str
        → ¬ Fits (kept (middle l p))
        → Inv l p m
        → Inv l (middle l p) m)
      (fitting : (l p : ℕ) (m : Text)
        → l < p
        → p ≤ length str
        → Fits (kept (middle l p))
        → Inv l p m
        → Inv (middle l p + 1) p (longer m (kept (middle l p)))) where
    -- The search ends within as many rounds as there are places left, with no error.
    pub search-Ends :
        (rounds l p : ℕ) (m : Text) (cache : Cache)
        → p - l ≤ rounds
        → p ≤ length str
        → Inv l p m
        → IsTrue browser str s.fill cache
        → Ends Inv (search browser rounds s str l p m cache)
    search-Ends zero l p m cache few h i t = record {
      bite = m;
      cache = cache;
      lower = l;
      past = p;
      found_it = unfold search in ground arith;
      crossed = omega arith;
      inv = i;
      true_cache = t;
    }
    search-Ends (suc rounds) l p m cache few h i t =
        on_test (Bool-cases (ltb l p))
          (λ l' p' m' c' few' h' i' t'. search-Ends rounds l' p' m' c' few' h' i' t')
      where
        k : ℕ
        k = middle l p

        Found : Type 0
        Found = Ends Inv (search browser (suc rounds) s str l p m cache)

        Later : Type 0
        Later =
            (l' p' : ℕ) (m' : Text) (c' : Cache)
            → p' - l' ≤ rounds
            → p' ≤ length str
            → Inv l' p' m'
            → IsTrue browser str s.fill c'
            → Ends Inv (search browser rounds s str l' p' m' c')

        on_height :
            (c' : Cache)
            → ltb l p ≡ true
            → eat_str browser str s.side (length str - k) s.fill cache ≡ ok (kept k, c')
            → IsTrue browser str s.fill c'
            → (ltb (limit browser s) (height (kept k)) ≡ true)
              ⊎ (ltb (limit browser s) (height (kept k)) ≡ false)
            → Later
            → Found
        on_height c' e eaten t' (inl high) later =
            unfold search in
            rw (e, eaten, high, search)
              (later l k m c' (omega (arith, ltb→lt l p e)) (omega (arith, ltb→lt l p e))
                (too_high l p m (ltb→lt l p e) h (λ fits. ground arith) i) t')
        on_height c' e eaten t' (inr low) later =
            unfold search in
            rw (e, eaten, low, search)
              (later (k + 1) p (longer m (kept k)) c' (omega (arith, ltb→lt l p e)) h
                (fitting l p m (ltb→lt l p e) h (ground arith) i) t')

        on_test : (ltb l p ≡ true) ⊎ (ltb l p ≡ false) → Later → Found
        on_test (inr e) later = record {
          bite = m;
          cache = cache;
          lower = l;
          past = p;
          found_it = unfold search in rw (e, search);
          crossed = ground arith;
          inv = i;
          true_cache = t;
        }
        on_test (inl e) later =
            let (c', eaten, t') = eat_str_lem k cache (omega (arith, ltb→lt l p e)) t in
            on_height c' e eaten t' (Bool-cases (ltb (limit browser s) (height (kept k)))) later
