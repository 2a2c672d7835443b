-- ===== src/Dotdotdot/Plugin/Laws.antt =====
-- The content and the style that the plugin of dotdotdot.js gives back.
use colt_core.Base.{
  ℕ, ◌≡◌, refl, Bool, true, false, Option, none, some, List, [], ◌∷◌, arith, Text, if◌then◌else◌,
  ltb, ◌∙◌, ap, ◌==◌, ◌&&◌,
}
use colt_core.Dotdotdot.Forest.{Forest, end}
use colt_core.Dotdotdot.Content.{Options, Wrap, word, letter, children, off, window, element_size}
use colt_core.Dotdotdot.Ellipsis.{Outcome, After, ellipsis, children_of}
use colt_core.Dotdotdot.Ellipsis.Total.{ellipsis-Returns}
use colt_core.Dotdotdot.Plugin.{
  Page, Moment, Dot, Timer, interval, timeout, shown, max_height, truncate, remaining, update,
  unwatch, watch, window_resize, run_timer, destroy, init, html, text, Event, updates, sets_html,
  sets_text, resizes_window, runs_timer, watches, unwatches, prepare, watch_if_asked, happen, run,
  untouched, original_after, original_after_all,
}

module _ (page : Page) (opts : Options) (after : After)
    (apart : (f : Forest) → remaining page opts after f ≡ f) where
  abbrev Truncates : Option (Forest × Bool) → Type 0
  Truncates o = (r : Forest × Bool) × (o ≡ some r)

  shown-Truncates :
      (o : Option Outcome)
      → (r : Outcome) × (o ≡ some r)
      → (let v : Option (Forest × Bool) = elim o [ none ↦ none | some r ↦ some (shown r) ] in
          Truncates v)
  shown-Truncates o (r, e) = rw e (shown r, refl)

  if-Truncates :
      (b : Bool) (x y : Option (Forest × Bool))
      → Truncates x
      → Truncates y
      → Truncates (if b then x else y)
  if-Truncates true x y hx hy = hx
  if-Truncates false x y hx hy = hy

  truncate-Truncates : (now : Moment) (org : Forest) → Truncates (truncate page opts after now org)
  unfolding truncate
  truncate-Truncates now org =
      if-Truncates (ltb (max_height page opts after now) (now.layout.height org)) _ _
        (shown-Truncates _ (go opts.wrap)) ((org, false), refl)
    where
      h : ℕ
      h = max_height page opts after now

      go :
          (w : Wrap)
          → (r : Outcome) × ((let o : Option Outcome = elim w [
            | children ↦ some (children_of now.layout opts h after org)
            | word ↦ ellipsis now.layout opts h after [] org end
            | letter ↦ ellipsis now.layout opts h after [] org end
          ] in
                o)
              ≡ some r)
      go children = (children_of now.layout opts h after org, refl)
      go word = ellipsis-Returns now.layout opts h after [] org end
      go letter = ellipsis-Returns now.layout opts h after [] org end

  -- What an event leaves of the plugin's state.
  record Keeps (org : Forest) (d d' : Dot) : Type 0 where
    org_content : d'.org_content ≡ org
    style : d'.style ≡ d.style
    saved_style : d'.saved_style ≡ d.saved_style
    is_active : d'.is_active ≡ d.is_active

  same : (d : Dot) → Keeps d.org_content d d
  same d = record { org_content = refl; style = refl; saved_style = refl; is_active = refl }

  abbrev Becomes : Forest → Dot → Option Dot → Type 0
  Becomes org d o = (d' : Dot) × (o ≡ some d') × Keeps org d d'

  update-Becomes :
      (now : Moment) (given : Option Forest) (d : Dot)
      → (let org : Forest = elim given [ none ↦ d.org_content | some c ↦ c ] in
          Becomes org d (update page opts after now given d))
  unfolding update
  update-Becomes now given d =
      let org : Forest = elim given [ none ↦ d.org_content | some c ↦ c ] in
      let ((content, cut_off), e) = truncate-Truncates now org in
      (
        record d {
          content = content;
          org_content = remaining page opts after org;
          is_truncated = cut_off;
        },
        rw (e, update),
        record { org_content = apart org; style = refl; saved_style = refl; is_active = refl },
      )

  run_timer-Becomes :
      (now later : Moment) (d : Dot)
      → Becomes d.org_content d (run_timer page opts after now later d)
  unfolding run_timer
  run_timer-Becomes now later d = go d.timer
    where
      again : Option Dot → Option Dot
      again none = none
      again (some d') =
          some (record d' { watch_width = later.inner_width; watch_height = later.inner_height })

      round : Option Dot
      round = again (update page opts after now none d)

      looked : Becomes d.org_content d round
      looked =
          let (d', e, k) = update-Becomes now none d in
          (
            record d' { watch_width = later.inner_width; watch_height = later.inner_height },
            ap again e,
            record {
              org_content = k.org_content;
              style = k.style;
              saved_style = k.saved_style;
              is_active = k.is_active;
            },
          )

      go :
          (t : Option Timer)
          → Becomes d.org_content d (elim t [
            | none ↦ some d
            | some u ↦ elim u [
              | timeout ↦ update page opts after now none (record d { timer = none })
              | interval ↦
                  if (d.watch_width == now.inner_width) && (d.watch_height == now.inner_height)
                  then some d
                  else round
            ]
          ])
      go none = (d, refl, same d)
      go (some timeout) =
          let (d', e, k) = update-Becomes now none (record d { timer = none }) in
          (
            d',
            e,
            record {
              org_content = k.org_content;
              style = k.style;
              saved_style = k.saved_style;
              is_active = k.is_active;
            },
          )
      go (some interval) =
          elim ((d.watch_width == now.inner_width) && (d.watch_height == now.inner_height))
            as (λ b. Becomes d.org_content d (if b then some d else round)) [
              | true ↦ (d, refl, same d)
              | false ↦ looked
            ]

  window_resize-Keeps :
      (now : Moment) (d : Dot) → Keeps d.org_content d (window_resize page opts after now d)
  unfolding window_resize
  window_resize-Keeps now d = ground arith

  watch-Keeps : (now : Moment) (d : Dot) → Keeps d.org_content d (watch page opts after now d)
  unfolding watch unwatch
  watch-Keeps now d = ground arith

  html_active :
      (now : Moment) (str : Text) (d : Dot)
      → d.is_active ≡ true
      → html page opts after now str d ≡ update page opts after now (some (page.parse str)) d
  unfolding html
  html_active now str d a = ground arith

  text_active :
      (now : Moment) (str : Text) (d : Dot)
      → d.is_active ≡ true
      → text page opts after now str d
        ≡ update page opts after now (some (page.parse (page.escape str))) d
  unfolding text
  text_active now str d a = ground arith

  -- An event on an element that has the plugin.
  happen-Becomes :
      (e : Event) (d : Dot)
      → d.is_active ≡ true
      → Becomes (original_after page e d.org_content) d (happen page opts after e d)
  unfolding happen original_after
  happen-Becomes (updates now given) d a = update-Becomes now given d
  happen-Becomes (sets_html now str) d a =
      rw (html_active now str d a) (update-Becomes now (some (page.parse str)) d)
  happen-Becomes (sets_text now str) d a =
      rw (text_active now str d a) (update-Becomes now (some (page.parse (page.escape str))) d)
  happen-Becomes (resizes_window now) d a = (_, refl, window_resize-Keeps now d)
  happen-Becomes (runs_timer now later) d a = run_timer-Becomes now later d
  happen-Becomes (watches now) d a = (_, refl, watch-Keeps now d)
  happen-Becomes unwatches d a = (
    _,
    refl,
    unfold unwatch in
        record { org_content = refl; style = refl; saved_style = refl; is_active = refl },
  )

  run-Becomes :
      (es : List Event) (d : Dot)
      → d.is_active ≡ true
      → Becomes (original_after_all page es d.org_content) d (run page opts after es d)
  unfolding run original_after_all
  run-Becomes [] d a =
      (d, refl, record { org_content = refl; style = refl; saved_style = refl; is_active = refl })
  run-Becomes (e ∷ es) d a =
      let (d1, e1, k1) = happen-Becomes e d a in
      let (d2, e2, k2) = run-Becomes es d1 (k1.is_active ∙ a) in
      (
        d2,
        rw (e1, run) e2,
        record {
          org_content = k2.org_content ∙ ap (original_after_all page es) k1.org_content;
          style = k2.style ∙ k1.style;
          saved_style = k2.saved_style ∙ k1.saved_style;
          is_active = k2.is_active ∙ k1.is_active;
        },
      )

  watch_if_asked-Keeps :
      (now : Moment) (d : Dot) → Keeps d.org_content d (watch_if_asked page opts after now d)
  unfolding watch_if_asked
  watch_if_asked-Keeps now d =
      elim opts.watch
        as (λ w.
          let r : Dot = elim w [ off ↦ d | _ ↦ watch page opts after now d ] in
          Keeps d.org_content d r) [
            | off ↦ same d
            | window ↦ watch-Keeps now d
            | element_size ↦ watch-Keeps now d
          ]

  destroy_style :
      (d : Dot) (s : Text) → d.saved_style ≡ some s → (destroy page opts after d).style ≡ some s
  unfolding destroy
  destroy_style d s e = ground arith

  -- What `init` leaves of an element that the plugin has not seen.
  init-untouched :
      (now : Moment) (id : ℕ) (content : Forest) (style : Text)
      → (d : Dot) × (init page opts after now id (untouched content (some style)) ≡ some d)
        × (d.org_content ≡ content)
        × (d.saved_style ≡ some style)
        × (d.is_active ≡ true)
  init-untouched now id content style =
      let d0 = prepare page opts after id (untouched content (some style)) in
      let (d, e, k) = update-Becomes now none d0 in
      let w = watch_if_asked-Keeps now d in
      (
        watch_if_asked page opts after now d,
        unfold init in ap settle e,
        w.org_content ∙ k.org_content ∙ unfold prepare in refl,
        w.saved_style ∙ k.saved_style ∙ unfold prepare in refl,
        w.is_active ∙ k.is_active ∙ unfold prepare in refl,
      )
    where
      settle : Option Dot → Option Dot
      settle none = none
      settle (some d') = some (watch_if_asked page opts after now d')

  -- The plugin comes on to an element that it has not seen and that has a style attribute, then any
  -- events come, and then `destroy`. Where no content holds the element of the option `after` inside of
  -- one of its own elements, as when there is none:
  -- nothing fails on the way, the element shows the content that it was last given, by `update`, `html`
  -- or `text`, or the one that it had at the start if none was given, and it has the style attribute
  -- that it had at the start.
  pub destroy-run-init :
      (now : Moment) (id : ℕ) (content : Forest) (style : Text) (es : List Event)
      → (d d' : Dot) × (init page opts after now id (untouched content (some style)) ≡ some d)
        × (run page opts after es d ≡ some d')
        × ((destroy page opts after d').content ≡ original_after_all page es content)
        × ((destroy page opts after d').style ≡ some style)
  destroy-run-init now id content style es =
      let (d, e, org, saved, active) = init-untouched now id content style in
      let (d', e', k) = run-Becomes es d active in
      (
        d,
        d',
        e,
        e',
        unfold destroy in (k.org_content ∙ ap (original_after_all page es) org),
        destroy_style d' style (k.saved_style ∙ saved),
      )
