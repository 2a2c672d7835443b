-- ===== src/Trunk8/Methods/Total.antt =====
-- The methods of trunk8.js raise nothing on elements that are cut on the right, to a height.
use mathlib.Core.Option.{some-injective}
use colt_core.Base.{
  ◌≡◌, refl, ap, ◌∙◌, Option, some, none, inl, inr, Text, codes, text_eq, Bool-cases, sym, subst,
}
use colt_core.Trunk8.{Browser, Result, ok, err, Cache, no_data}
use colt_core.Trunk8.Truncate.{Settings, Element, defaults, init, update, revert}
use colt_core.Trunk8.Truncate.Total.{IsPlain, Cuts, truncate-Cuts}
use colt_core.Trunk8.Methods.{
  Given, Holder, or_else, update_settings, options, named, Answer, chained, settle, holding,
  call_init, call_update, call_revert, call_named, trunk8,
}

-- The element has no `trunk8` object, or one with such settings; it has one.
abbrev pub IsUsable : Holder → Type 0
IsUsable h = (el : Element) → h.element ≡ some el → IsPlain el.settings

abbrev pub HasData : Holder → Type 0
HasData h = (el : Element) × (h.element ≡ some el)

-- A call that ends, with what is then known of the element.
abbrev pub Ends : (Holder → Type 0) → Option (Result Answer) → Type 0
Ends P found =
    (h : Holder) × (cache : Cache) × (found ≡ some (ok (chained h cache))) × IsUsable h × P h

module _ (browser : Browser) where
  settle-Ends :
      (el : Element) (found : Option (Result (Element × Cache)))
      → IsPlain el.settings
      → Cuts el found
      → Ends HasData (settle found)
  settle-Ends el found plain (el', cache', e, kept, text) = (
    holding el',
    cache',
    ap settle e,
    λ el2 same.
        subst (λ (t : Element). IsPlain t.settings) (some-injective el' el2 same)
          (subst IsPlain (sym kept) plain),
    (el', refl),
  )

  update_settings-IsPlain :
      (g : Given) (s : Settings)
      → g.side ≡ none
      → g.width ≡ none
      → IsPlain s
      → IsPlain (update_settings g s)
  unfolding update_settings
  update_settings-IsPlain g s side width (p, q) =
      (ap (λ o. or_else o s.side) side ∙ p, ap (λ o. or_else o s.width) width ∙ q)

  init-Ends :
      (g : Given) (html : Text) (title : Option Text) (o : Option Element) (cache : Cache)
      → g.side ≡ none
      → g.width ≡ none
      → ((el : Element) → o ≡ some el → IsPlain el.settings)
      → Ends HasData (
          settle (
            init browser html title o
              (update_settings g (elim o [ none ↦ defaults | some el ↦ el.settings ]))
              cache))
  unfolding init
  init-Ends g html title none cache side width usable =
      let plain = update_settings-IsPlain g defaults side width (refl, refl) in
      let el : Element = record {
        html = html;
        title = title;
        original_text = html;
        settings = update_settings g defaults;
      } in
      settle-Ends el _ plain (truncate-Cuts browser el cache plain)
  init-Ends g html title (some el) cache side width usable =
      let plain = update_settings-IsPlain g el.settings side width (usable el refl) in
      let el1 = record el { settings = update_settings g el.settings } in
      settle-Ends el1 _ plain (truncate-Cuts browser el1 cache plain)

  -- Options that leave the side and the width.
  pub options-Ends :
      (g : Given) (h : Holder) (cache : Cache)
      → g.side ≡ none
      → g.width ≡ none
      → IsUsable h
      → Ends HasData (trunk8 browser (options g) h cache)
  unfolding trunk8 call_init
  options-Ends g h cache side width usable =
      init-Ends g h.html h.title h.element cache side width usable

  update-Cuts :
      (el : Element) (cache : Cache) → IsPlain el.settings → Cuts el (update browser none el cache)
  unfolding update
  update-Cuts el cache plain = elim (Bool-cases (text_eq el.original_text el.html)) [
    | inl e ↦ (el, cache, rw e refl, refl, refl)
    | inr e ↦ rw e (truncate-Cuts browser el cache plain)
  ]

  update_at :
      (h : Holder) (o : Option Element) (cache : Cache)
      → h.element ≡ o
      → IsUsable h
      → Ends
          (λ h'. HasData h → HasData h')
          (elim o [
            | none ↦ some (ok (chained h cache))
            | some el ↦ settle (update browser none el cache)
          ])
  update_at h none cache e usable = (h, cache, refl, usable, λ d. d)
  update_at h (some el) cache e usable =
      let (h', cache', f, u, d) =
        settle-Ends el (update browser none el cache) (usable el e)
          (update-Cuts el cache (usable el e)) in
      (h', cache', f, u, λ before. d)

  pub update-Ends :
      (h : Holder) (cache : Cache)
      → IsUsable h
      → Ends (λ h'. HasData h → HasData h') (trunk8 browser (named (codes "update") none) h cache)
  unfolding trunk8 call_named call_update
  update-Ends h cache usable = update_at h h.element cache refl usable

  revert_at :
      (h : Holder) (o : Option Element) (cache : Cache) (el : Element)
      → o ≡ some el
      → IsPlain el.settings
      → Ends
          (λ h'. HasData h' × (h'.html ≡ el.original_text))
          (elim o [
            | none ↦ some (err no_data)
            | some e ↦ some (ok (chained (holding (revert e)) cache))
          ])
  unfolding revert
  revert_at h o cache el e plain = rw e (
    holding (revert el),
    cache,
    refl,
    λ el2 same. subst (λ (t : Element). IsPlain t.settings) (some-injective _ el2 same) plain,
    ((revert el, refl), refl),
  )

  pub revert-Ends :
      (h : Holder) (cache : Cache) (el : Element)
      → h.element ≡ some el
      → IsUsable h
      → Ends
          (λ h'. HasData h' × (h'.html ≡ el.original_text))
          (trunk8 browser (named (codes "revert") none) h cache)
  unfolding trunk8 call_named call_revert
  revert-Ends h cache el e usable = revert_at h h.element cache el e (usable el e)
