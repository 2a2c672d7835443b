-- ===== src/Dotdotdot/Plugin.antt =====
-- `$.fn.dotdotdot` itself: the state that it keeps for an element, and its events.
pub mod Queries
pub mod Laws
use colt_core.Base.{
  ℕ, zero, suc, ◌+◌, ◌-◌, Bool, true, false, ◌&&◌, ◌||◌, not, Option, none, some, List, [], ◌∷◌,
  ◌++◌, Text, codes, ◌==◌, ltb, text_eq, if◌then◌else◌,
}
use colt_core.Dotdotdot.Forest.{Forest, end, reverse}
use colt_core.Dotdotdot.Content.{
  Layout, Options, Wrap, word, letter, children, Watch, off, window, element_size,
}
use colt_core.Dotdotdot.Ellipsis.{Outcome, kept, cut, After, ellipsis, children_of}

-- What the plugin calls of the browser and of jQuery on markup and on styles: the content that a text
-- of markup makes, the markup of a text, a style attribute with a property set, and its `white-space`.
-- `without_after` is what is left of a content when the element of the option `after` is taken from where
-- it stands: the content itself, unless it holds that element inside of one of its own.
pub record Page : Type 0 where
  pub parse : Text → Forest
  pub escape : Text → Text
  pub set_css : Option Text → Text → Text → Text
  pub white_space : Text → Text
  pub without_after : Forest → Forest

-- What the browser measures at the time of a call: the heights of content in the element, the
-- element's `innerWidth()` and `innerHeight()`, its top and bottom padding as far as they are numbers,
-- and the window.
pub record Moment : Type 0 where
  pub layout : Layout
  pub inner_width : ℕ
  pub inner_height : ℕ
  pub paddings : List (Option ℕ)
  pub window_width : ℕ
  pub window_height : ℕ

-- What `watchInt` was last set to.
pub data Timer : Type 0 where
  interval timeout : Timer

-- An element with its data. `style` is the attribute; `watch_width` and `watch_height` are those of
-- `watchOrg`, or `_wWidth` and `_wHeight`; `resizes` says whether `resize` of the window is bound.
pub record Dot : Type 0 where
  pub content : Forest
  pub style : Option Text
  pub is_active : Bool
  pub saved_style : Option Text
  pub org_content : Forest
  pub is_truncated : Bool
  pub dot_id : ℕ
  pub watch_width : ℕ
  pub watch_height : ℕ
  pub timer : Option Timer
  pub resizes : Bool

-- An element that the plugin has not seen.
abbrev pub untouched : Forest → Option Text → Dot
untouched content style = record {
  content = content;
  style = style;
  is_active = false;
  saved_style = none;
  org_content = end;
  is_truncated = false;
  dot_id = 0;
  watch_width = 0;
  watch_height = 0;
  timer = none;
  resizes = false;
}

-- `debug`, with what it writes to the console.
unfoldable pub debug : Bool → Text → List Text
debug d m = if d then (codes "dotdotdot: " ++ m) ∷ [] else []

-- The option `after` as it is given: nothing, a selector, a jQuery object with its element if it has
-- one, or another value.
pub data Given : Type 0 where
  nothing : Given
  selector : Text → Given
  jquery : After → Given
  other : Given

-- `getElement`, where `find` is what a selector finds in the element. A jQuery object is taken as it
-- is.
unfoldable pub get_element : (Text → After) → Given → After
get_element find nothing = none
get_element find (selector e) = find e
get_element find (jquery e) = e
get_element find other = none

-- The loop of `getTrueInnerHeight`; what is no number counts as 0.
unfoldable pub without_paddings : ℕ → List (Option ℕ) → ℕ
without_paddings h [] = h
without_paddings h (none ∷ ps) = without_paddings h ps
without_paddings h (some m ∷ ps) = without_paddings (h - m) ps

unfoldable pub true_inner_height : Moment → ℕ
true_inner_height now = without_paddings now.inner_height now.paddings

-- The content to show, and whether it is cut.
abbrev pub shown : Outcome → Forest × Bool
shown (kept f) = (reverse f, false)
shown (cut w) = (w, true)

module _ (page : Page) (opts : Options) (after : After) where
  -- `opts.maxHeight`
  unfoldable pub max_height : Moment → ℕ
  unfolding true_inner_height
  max_height now =
      elim opts.fixed_height [ none ↦ true_inner_height now | some h ↦ h ] + opts.tolerance

  -- What `update` does with the content; `none` does not come up.
  unfoldable pub truncate : Moment → Forest → Option (Forest × Bool)
  unfolding max_height
  truncate now org =
      let cutting : Option Outcome = elim opts.wrap [
        | children ↦ some (children_of now.layout opts (max_height now) after org)
        | word ↦ ellipsis now.layout opts (max_height now) after [] org end
        | letter ↦ ellipsis now.layout opts (max_height now) after [] org end
      ] in
      if ltb (max_height now) (now.layout.height org)
      then elim cutting [ none ↦ none | some o ↦ some (shown o) ]
      else some (org, false)

  -- The original content after `conf.afterElement.remove()`.
  abbrev pub remaining : Forest → Forest
  remaining org = elim after [ none ↦ org | some a ↦ page.without_after org ]

  -- The event `update.dot`, with new content or with none. What is shown is made of a copy.
  unfoldable pub update : Moment → Option Forest → Dot → Option Dot
  update now given d =
      let org : Forest = elim given [ none ↦ d.org_content | some c ↦ c ] in
      elim (truncate now org) [
        | none ↦ none
        | some (content, cut_off) ↦
            some
              (record d { content = content; org_content = remaining org; is_truncated = cut_off })
      ]

  -- `unwatch` and `watch`.
  unfoldable pub unwatch : Dot → Dot
  unwatch d = record d { resizes = false; timer = none }

  unfoldable pub watch : Moment → Dot → Dot
  unfolding unwatch
  watch now d = elim opts.watch [
    | window ↦ record (unwatch d) {
      resizes = true;
      watch_width = now.window_width;
      watch_height = now.window_height;
    }
    | element_size ↦ record (unwatch d) {
      timer = some interval;
      watch_width = now.inner_width;
      watch_height = now.inner_height;
    }
    | off ↦ record (unwatch d) {
      timer = some interval;
      watch_width = now.inner_width;
      watch_height = now.inner_height;
    }
  ]

  -- `resize` of the window: a timer of 10 milliseconds, in place of one that is set.
  unfoldable pub window_resize : Moment → Dot → Dot
  window_resize now d =
      let changed : Bool =
        not (d.watch_width == now.window_width)
        || (not (d.watch_height == now.window_height) || not opts.window_resize_fix) in
      if d.resizes && changed
      then record d {
        watch_width = now.window_width;
        watch_height = now.window_height;
        timer = some timeout;
      }
      else d

  -- The timer runs: a timeout, or a round of the interval, which takes the sizes `later` after an
  -- update.
  unfoldable pub run_timer : Moment → Moment → Dot → Option Dot
  run_timer now later d = elim d.timer [
    | none ↦ some d
    | some t ↦ elim t [
      | timeout ↦ update now none (record d { timer = none })
      | interval ↦
          if (d.watch_width == now.inner_width) && (d.watch_height == now.inner_height)
          then some d
          else elim (update now none d) [
            | none ↦ none
            | some d' ↦
                some
                  (record d' { watch_width = later.inner_width; watch_height = later.inner_height })
          ]
    ]
  ]

  -- The event `destroy.dot`. A style attribute that was not there is not taken away again, since
  -- `attr` does nothing with an undefined value.
  unfoldable pub destroy : Dot → Dot
  unfolding unwatch
  destroy d =
      let style : Option Text = elim d.saved_style [ none ↦ d.style | some s ↦ some s ] in
      record (unwatch d) { content = d.org_content; style = style; is_active = false }

  -- What `$.fn.dotdotdot` sets before its first update. An element that has the plugin already loses it
  -- first.
  unfoldable pub prepare : ℕ → Dot → Dot
  prepare id d =
      let d1 = if d.is_active then destroy d else d in
      let wrapped = page.set_css d1.style (codes "word-wrap") (codes "break-word") in
      let style =
        if text_eq (page.white_space wrapped) (codes "nowrap")
        then page.set_css (some wrapped) (codes "white-space") (codes "normal")
        else wrapped in
      let saved : Option Text = elim d1.style [ none ↦ d1.saved_style | some s ↦ some s ] in
      record d1 {
        saved_style = saved;
        style = some style;
        org_content = d1.content;
        is_truncated = false;
        is_active = true;
        dot_id = id;
      }

  unfoldable pub watch_if_asked : Moment → Dot → Dot
  watch_if_asked now d = elim opts.watch [ off ↦ d | _ ↦ watch now d ]

  -- `$.fn.dotdotdot` on one element, with the next identity.
  unfoldable pub init : Moment → ℕ → Dot → Option Dot
  init now id d = elim (update now none (prepare id d)) [
    | none ↦ none
    | some d' ↦ some (watch_if_asked now d')
  ]

  -- `$.fn.dotdotdot` on each element of a jQuery object, in order, with the next identities.
  unfoldable pub init_each : Moment → ℕ → List Dot → Option (List Dot)
  init_each now id [] = some []
  init_each now id (d ∷ ds) = elim (init now id d) [
    | none ↦ none
    | some d' ↦ elim (init_each now (id + 1) ds) [ none ↦ none | some ds' ↦ some (d' ∷ ds') ]
  ]

  -- `$.fn.html(str)` and `$.fn.text(str)`: on an element with the plugin they update it.
  unfoldable pub html : Moment → Text → Dot → Option Dot
  html now str d =
      if d.is_active
      then update now (some (page.parse str)) d
      else some (record d { content = page.parse str })

  unfoldable pub text : Moment → Text → Dot → Option Dot
  text now str d =
      if d.is_active
      then update now (some (page.parse (page.escape str))) d
      else some (record d { content = page.parse (page.escape str) })

-- What `$.fn.dotdotdot` writes to the console for a jQuery object with no element: nothing if the
-- caller turns `debug` off; `asked` is its own option, if it gives one.
unfoldable pub complaint : Option Bool → Text → List Dot → List Text
unfolding debug
complaint asked chosen (d ∷ ds) = []
complaint asked chosen [] =
    let wanted : Bool = elim asked [ none ↦ true | some b ↦ b ] in
    if wanted then debug true (codes "No element found for \"" ++ chosen ++ codes "\".") else []

-- What can happen to an element that has the plugin.
pub data Event : Type 0 where
  updates : Moment → Option Forest → Event
  sets_html sets_text : Moment → Text → Event
  resizes_window : Moment → Event
  runs_timer : Moment → Moment → Event
  watches : Moment → Event
  unwatches : Event

unfoldable pub happen : Page → Options → After → Event → Dot → Option Dot
happen page opts after (updates now given) d = update page opts after now given d
happen page opts after (sets_html now str) d = html page opts after now str d
happen page opts after (sets_text now str) d = text page opts after now str d
happen page opts after (resizes_window now) d = some (window_resize page opts after now d)
happen page opts after (runs_timer now later) d = run_timer page opts after now later d
happen page opts after (watches now) d = some (watch page opts after now d)
happen page opts after unwatches d = some (unwatch page opts after d)

-- What the original content is after an event: new content, or what it was.
unfoldable pub original_after : Page → Event → Forest → Forest
original_after page (updates now given) f = elim given [ none ↦ f | some c ↦ c ]
original_after page (sets_html now str) f = page.parse str
original_after page (sets_text now str) f = page.parse (page.escape str)
original_after page _ f = f

unfoldable pub original_after_all : Page → List Event → Forest → Forest
original_after_all page [] f = f
original_after_all page (e ∷ es) f = original_after_all page es (original_after page e f)

-- A run of events; the model's `none` stops it.
unfoldable pub run : Page → Options → After → List Event → Dot → Option Dot
run page opts after [] d = some d
run page opts after (e ∷ es) d = elim (happen page opts after e d) [
  | none ↦ none
  | some d' ↦ run page opts after es d'
]
