-- ===== src/Trunk8/Truncate/Fits.antt =====
-- What `truncate` shows: a text that fits, and the longest one.
use colt_core.Base.{
  ℕ, ◌+◌, ◌-◌, ◌≤◌, ◌<◌, ◌≡◌, refl, ◌∙◌, ap, true, false, Option, some, [], ◌⊎◌, inl, inr, arith,
  Text, ltb, leb, ltb→lt, leb→le, length, Bool-cases,
}
use colt_core.Trunk8.{Browser, right, Result, ok, Cache}
use colt_core.Trunk8.EatStr.{cut_right, IsTrue}
use colt_core.Trunk8.Truncate.{
  Element, auto, limit, longer, middle, search, truncate, by_width, to_fit, shown, with_tooltip,
}
use colt_core.Trunk8.Truncate.Search.{Ends, search-Ends}

module _ (browser : Browser) (el : Element) (on_right : el.settings.side ≡ right)
    (width : el.settings.width ≡ auto) where
  open browser use {height}

  str : Text
  str = el.original_text

  abbrev Fits : Text → Type 0
  Fits t = height t ≤ limit browser el.settings

  -- An outcome of `truncate`, with the content that it leaves and what is known of the content.
  record Shows (P : Text → Type 0) (found : Option (Result (Element × Cache))) : Type 0 where
    element : Element
    cache : Cache
    found_it : found ≡ some (ok (element, cache))
    content : P element.html
    true_cache : IsTrue browser el.original_text el.settings.fill cache

  unfold_width :
      (cache : Cache)
      → truncate browser el cache ≡ to_fit browser (record el { html = el.original_text }) cache
  unfolding truncate by_width
  unfold_width cache =
      ap (λ w. by_width browser w (record el { html = el.original_text }) cache) width

  shown-html :
      (e : Element) (t : Text) (c : Cache)
      → (e' : Element) × (shown browser e (ok (t, c)) ≡ ok (e', c)) × (e'.html ≡ t)
  unfolding shown
  shown-html e t c = (
    with_tooltip browser e.settings (browser.text e.original_text) (record e { html = t }),
    refl,
    unfold with_tooltip in ground arith,
  )

  module _ (P : Text → Type 0) (whole : Fits el.original_text → P el.original_text)
      (Inv : ℕ → ℕ → Text → Type 0)
      (ends : (l p : ℕ) (m : Text) → p ≤ l → ¬ Fits el.original_text → Inv l p m → P m) where
    truncate-Shows :
        (cache : Cache)
        → (¬ Fits el.original_text
            → Ends browser el.settings el.original_text on_right Inv (
                search browser
                  (length el.original_text)
                  el.settings
                  el.original_text
                  0
                  (length el.original_text)
                  []
                  cache))
        → IsTrue browser el.original_text el.settings.fill cache
        → Shows P (truncate browser el cache)
    truncate-Shows cache searched t =
        on_test (Bool-cases (leb (height el.original_text) (limit browser el.settings)))
      where
        reset : Element
        reset = record el { html = el.original_text }

        on_test :
            (leb (height el.original_text) (limit browser el.settings) ≡ true)
              ⊎ (leb (height el.original_text) (limit browser el.settings) ≡ false)
            → Shows P (truncate browser el cache)
        on_test (inl e) = record {
          element = reset;
          cache = cache;
          found_it = unfold_width cache ∙ unfold to_fit in rw (e, to_fit);
          content = whole (leb→le _ _ e);
          true_cache = t;
        }
        on_test (inr e) =
            let high : ¬ Fits el.original_text = λ fits. ground arith in
            let found = searched high in
            let (element, shows, html) = shown-html reset found.bite found.cache in
            record {
              element = element;
              cache = found.cache;
              found_it =
                  unfold_width cache
                  ∙ unfold to_fit in rw (e, found.found_it, to_fit) (ap some shows);
              content =
                  rw html (ends found.lower found.past found.bite found.crossed high found.inv);
              true_cache = found.true_cache;
            }

  -- The content that a bite may be: nothing, or a text that fits.
  abbrev NoneOrFits : Text → Type 0
  NoneOrFits t = (t ≡ []) ⊎ Fits t

  NoneOrFits-longer : (m t : Text) → NoneOrFits m → Fits t → NoneOrFits (longer m t)
  NoneOrFits-longer m t h f = ground arith

  -- With the side `right`, the width `auto` and a cache that is right for the text, cutting always ends
  -- and raises no error; what the element then shows is empty or no higher than the lines allow,
  -- whatever the heights are, and the cache stays right.
  pub truncate_fits :
      (cache : Cache)
      → IsTrue browser el.original_text el.settings.fill cache
      → (el' : Element) × (cache' : Cache) × (truncate browser el cache ≡ some (ok (el', cache')))
        × ((el'.html ≡ []) ⊎ (height el'.html ≤ limit browser el.settings))
        × IsTrue browser el.original_text el.settings.fill cache'
  truncate_fits cache t =
      let out =
        truncate-Shows NoneOrFits (λ f. inr f) (λ l p m. NoneOrFits m) (λ l p m c n i. i) cache
          (λ high.
            search-Ends browser el.settings el.original_text on_right (λ l p m. NoneOrFits m)
              (λ l p m lt h n i. i) (λ l p m lt h f i. NoneOrFits-longer m _ i f)
              (length el.original_text) 0 (length el.original_text) [] cache (omega arith)
              (omega arith) (inl refl) t)
          t in
      (out.element, out.cache, out.found_it, out.content, out.true_cache)

  -- The text with `k` characters kept.
  abbrev pub kept_text : ℕ → Text
  kept_text k = cut_right browser el.original_text el.settings.fill (length el.original_text - k)

  module _
      (mono : (j k : ℕ)
        → j ≤ k
        → k < length el.original_text
        → Fits (kept_text k)
        → Fits (kept_text j))
      (grows : (j k : ℕ)
        → j ≤ k
        → k < length el.original_text
        → length (kept_text j) ≤ length (kept_text k)) where
    -- What the rounds have shown: of the bites below `l`, and of those from `p` on.
    record IsSearched (l p : ℕ) (m : Text) : Type 0 where
      best : (k : ℕ) → k < l → k < length el.original_text → length (kept_text k) ≤ length m
      over : (k : ℕ) → p ≤ k → k < length el.original_text → ¬ Fits (kept_text k)

    too_high :
        (l p : ℕ) (m : Text)
        → l < p
        → p ≤ length el.original_text
        → ¬ Fits (kept_text (middle l p))
        → IsSearched l p m
        → IsSearched l (middle l p) m
    too_high l p m lt h n i = record {
      best = i.best;
      over = λ k le lt' f. n (mono (middle l p) k le lt' f);
    }

    fitting :
        (l p : ℕ) (m : Text)
        → l < p
        → p ≤ length el.original_text
        → Fits (kept_text (middle l p))
        → IsSearched l p m
        → IsSearched (middle l p + 1) p (longer m (kept_text (middle l p)))
    fitting l p m lt h f i = record {
      best = λ k lt' lt''. ground (arith, grows k (middle l p));
      over = i.over;
    }

    start : IsSearched 0 (length el.original_text) []
    start = record { best = λ k h. elim h [ ]; over = λ k le lt. absurd (omega arith) }

    -- The whole text, or one at least as long as every bite that fits.
    abbrev Longest : Text → Type 0
    Longest t =
        (t ≡ el.original_text)
        ⊎ ((k : ℕ)
            → k < length el.original_text
            → height (kept_text k) ≤ limit browser el.settings
            → length (kept_text k) ≤ length t)

    IsSearched-Longest :
        (l p : ℕ) (m : Text) → p ≤ l → ¬ Fits el.original_text → IsSearched l p m → Longest m
    IsSearched-Longest l p m c n i = inr (λ k h fits. elim (Bool-cases (ltb k l)) [
      | inl e ↦ i.best k (ltb→lt k l e) h
      | inr e ↦ absurd (i.over k (ground arith) h fits)
    ])

    -- With the side `right`, the width `auto` and a cache that is right for the text: where every bite
    -- that keeps less of the text than one that fits also fits, and is no longer, the element shows its
    -- whole text or a text at least as long as every bite that fits.
    pub truncate_longest :
        (cache : Cache)
        → IsTrue browser el.original_text el.settings.fill cache
        → (el' : Element) × (cache' : Cache) × (truncate browser el cache ≡ some (ok (el', cache')))
          × ((el'.html ≡ el.original_text)
              ⊎ ((k : ℕ)
                  → k < length el.original_text
                  → height (kept_text k) ≤ limit browser el.settings
                  → length (kept_text k) ≤ length el'.html))
    truncate_longest cache t =
        let out =
          truncate-Shows Longest (λ f. inl refl) IsSearched IsSearched-Longest cache
            (λ high.
              search-Ends browser el.settings el.original_text on_right IsSearched too_high fitting
                (length el.original_text) 0 (length el.original_text) [] cache (omega arith)
                (omega arith) start t)
            t in
        (out.element, out.cache, out.found_it, out.content)
