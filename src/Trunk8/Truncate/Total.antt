-- ===== src/Trunk8/Truncate/Total.antt =====
-- Cutting on the right, to a height, ends whatever the cache holds.
use colt_core.Base.{
  ℕ, zero, suc, ◌+◌, ◌-◌, ◌≤◌, ◌<◌, ◌≡◌, refl, ◌∙◌, ap, true, false, Option, some, [], ◌⊎◌, inl,
  inr, arith, Text, ltb, leb, ltb→lt, length, Bool-cases,
}
use colt_core.Trunk8.{Browser, right, Result, ok, err, Cache, eat_str, eat_right, guarded}
use colt_core.Trunk8.Truncate.{
  Settings, Element, auto, limit, longer, middle, search, truncate, by_width, to_fit, shown,
  with_tooltip,
}

abbrev IsOk {ℓ} : {A : Type ℓ} → Result A → Type 0
IsOk (ok a) = Unit
IsOk (err e) = ⊥

IsOk-ok {ℓ} : {A : Type ℓ} (r : Result A) → IsOk r → (a : A) × (r ≡ ok a)
IsOk-ok (ok a) h = (a, refl)
IsOk-ok (err e) h = elim h [ ]

-- What the settings of an element of the log page keep.
abbrev pub IsPlain : Settings → Type 0
IsPlain s = (s.side ≡ right) × (s.width ≡ auto)

-- An outcome of `truncate`: no exception, and the text and the settings are what they were.
abbrev pub Cuts : Element → Option (Result (Element × Cache)) → Type 0
Cuts el found =
    (el' : Element) × (cache' : Cache) × (found ≡ some (ok (el', cache')))
    × (el'.settings ≡ el.settings)
    × (el'.original_text ≡ el.original_text)

module _ (browser : Browser) where
  open browser use {height}

  eat_right-IsOk :
      (str fill : Text) (bite : ℕ) (cache : Cache)
      → 0 < length str
      → bite ≤ length str
      → IsOk (eat_right browser str bite fill cache)
  unfolding eat_right guarded
  eat_right-IsOk str fill bite cache h k = ground arith

  search-Returns :
      (rounds : ℕ) (s : Settings) (str : Text) (l p : ℕ) (m : Text) (cache : Cache)
      → s.side ≡ right
      → p - l ≤ rounds
      → p ≤ length str
      → (r : Text × Cache) × (search browser rounds s str l p m cache ≡ some (ok r))
  search-Returns zero s str l p m cache side few h = ((m, cache), unfold search in ground arith)
  search-Returns (suc rounds) s str l p m cache side few h =
      on_test (Bool-cases (ltb l p))
        (λ l' p' m' c' few' h'. search-Returns rounds s str l' p' m' c' side few' h')
    where
      k : ℕ
      k = middle l p

      Found : Type 0
      Found = (r : Text × Cache) × (search browser (suc rounds) s str l p m cache ≡ some (ok r))

      Later : Type 0
      Later =
          (l' p' : ℕ) (m' : Text) (c' : Cache)
          → p' - l' ≤ rounds
          → p' ≤ length str
          → (r : Text × Cache) × (search browser rounds s str l' p' m' c' ≡ some (ok r))

      eaten :
          l < p
          → (r : Text × Cache) × (eat_str browser str s.side (length str - k) s.fill cache ≡ ok r)
      eaten lt = rw side (
          unfold eat_str in
          IsOk-ok (eat_right browser str (length str - k) s.fill cache)
            (eat_right-IsOk str s.fill (length str - k) cache (omega arith) (omega arith)))

      on_height :
          (r : Text × Cache)
          → ltb l p ≡ true
          → eat_str browser str s.side (length str - k) s.fill cache ≡ ok r
          → (ltb (limit browser s) (height r.0) ≡ true)
            ⊎ (ltb (limit browser s) (height r.0) ≡ false)
          → Later
          → Found
      on_height r e done (inl high) later =
          unfold search in
          rw (e, done, high, search)
            (later l k m r.1 (omega (arith, ltb→lt l p e)) (omega (arith, ltb→lt l p e)))
      on_height r e done (inr low) later =
          unfold search in
          rw (e, done, low, search)
            (later (k + 1) p (longer m r.0) r.1 (omega (arith, ltb→lt l p e)) h)

      on_test : (ltb l p ≡ true) ⊎ (ltb l p ≡ false) → Later → Found
      on_test (inr e) later = ((m, cache), unfold search in rw (e, search) refl)
      on_test (inl e) later =
          let (r, done) = eaten (ltb→lt l p e) in
          on_height r e done (Bool-cases (ltb (limit browser s) (height r.0))) later

  to_fit-Cuts :
      (el : Element) (cache : Cache) → IsPlain el.settings → Cuts el (to_fit browser el cache)
  to_fit-Cuts el cache (side, width) =
      elim (Bool-cases (leb (height el.original_text) (limit browser el.settings))) [
        | inl e ↦ (el, cache, unfold to_fit in rw (e, to_fit) refl, refl, refl)
        | inr e ↦
            let str = el.original_text in
            let (r, found) =
              search-Returns (length str) el.settings str 0 (length str) [] cache side (omega arith)
                (omega arith) in
            (
              with_tooltip browser el.settings (browser.text str) (record el { html = r.0 }),
              r.1,
              unfold to_fit in rw (e, found, to_fit) (unfold shown in refl),
              unfold with_tooltip in ground arith,
              unfold with_tooltip in ground arith,
            )
      ]

  unfold_width :
      (el : Element) (cache : Cache)
      → el.settings.width ≡ auto
      → truncate browser el cache ≡ to_fit browser (record el { html = el.original_text }) cache
  unfolding truncate by_width
  unfold_width el cache width =
      ap (λ w. by_width browser w (record el { html = el.original_text }) cache) width

  pub truncate-Cuts :
      (el : Element) (cache : Cache) → IsPlain el.settings → Cuts el (truncate browser el cache)
  truncate-Cuts el cache (side, width) =
      let (el', cache', found, kept, text) =
        to_fit-Cuts (record el { html = el.original_text }) cache (side, width) in
      (el', cache', unfold_width el cache width ∙ found, kept, text)
