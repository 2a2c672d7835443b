-- ===== src/Dotdotdot/Examples.antt =====
-- The theorems on dotdotdot.js at concrete inputs: a browser where content is as high as it has
-- characters.
use colt_core.Base.{
  ℕ, ◌+◌, ◌≤◌, ◌≡◌, ◌≢◌, inl, refl, Bool, none, some, List, [], ◌∷◌, ◌++◌, arith, Text, codes, ltb,
  length, length-append,
}
use colt_core.Dotdotdot.Forest.{Forest, end, text, element, rev_onto, close_all}
use colt_core.Dotdotdot.Content.{
  Layout, defaults, contains, split, join, add_ellipsis, strip_end, ends_sentence, last,
  get_text_content, separator, set_text_content,
}
use colt_core.Dotdotdot.Search.{Search, search, probe, fall_back}
use colt_core.Dotdotdot.Search.Longest.{Fits}
use colt_core.Dotdotdot.Ellipsis.{
  kept, cut, ellipsis, children_of, elements, over, whole, ellipsis_element, cut_text, use_position,
}
use colt_core.Dotdotdot.Ellipsis.Total.{ellipsis-Returns, ellipsis-IsTextless, Returns}
use colt_core.Dotdotdot.Ellipsis.Fits.{Good, ellipsis-Good}
use colt_core.Dotdotdot.Ellipsis.Limits.{ellipsis-one_word}
use colt_core.Dotdotdot.Ellipsis.Children.{KeepsFirst, children_of-KeepsFirst}
use colt_core.Dotdotdot.Plugin.{
  Page, Moment, Dot, Event, updates, sets_text, runs_timer, init, run, destroy, untouched,
  original_after_all,
}
use colt_core.Dotdotdot.Plugin.Laws.{destroy-run-init}

abbrev chars : Forest → ℕ
chars end = 0
chars (text t rest) = length t + chars rest
chars (element tag kids rest) = chars kids + chars rest

abbrev plain_text : Forest → Text
plain_text end = []
plain_text (text t rest) = t ++ plain_text rest
plain_text (element tag kids rest) = plain_text kids ++ plain_text rest

abbrev narrow : Layout
narrow = record { height = chars; inner_text = plain_text; in_array = contains }

chars-rev_onto : (f g : Forest) → chars (rev_onto f g) ≡ chars f + chars g
unfolding rev_onto
chars-rev_onto end g = omega arith
chars-rev_onto (text t rest) g = omega (arith, chars-rev_onto rest (text t g))
chars-rev_onto (element tag kids rest) g = omega (arith, chars-rev_onto rest (element tag kids g))

visible : defaults.ellipsis ≢ []
visible e = cc

-- A text is no higher without a piece of it.
shrinks :
    (t u v : Text) (up : Forest)
    → chars (whole narrow defaults 12 none [] (text (t ++ v) up))
      ≤ chars (whole narrow defaults 12 none [] (text (t ++ (u ++ v)) up))
unfolding whole close_all
shrinks t u v up = omega (
  arith,
  chars-rev_onto (text (t ++ v) up) end,
  chars-rev_onto (text (t ++ (u ++ v)) up) end,
  length-append t v,
  length-append t (u ++ v),
  length-append u v,
)

-- Twelve characters fit.
abbrev tall : Forest → Bool
tall f = ltb 12 (chars f)

abbrev words : List Text
words = codes "one" ∷ codes "two" ∷ codes "three" ∷ codes "four" ∷ []

abbrev sentence : Forest
sentence = text (codes "one two, three four") end

ellipsis-Good_example :
    Good narrow defaults 12 none visible shrinks (ellipsis narrow defaults 12 none [] sentence end)
ellipsis-Good_example =
    ellipsis-Good narrow defaults 12 none visible shrinks sentence end tt tt (inl refl)

ellipsis_cuts :
    ellipsis narrow defaults 12 none [] sentence end ≡ some (cut (text (codes "one two... ") end))
unfolding ellipsis over whole close_all rev_onto ellipsis_element cut_text get_text_content
    separator contains split search probe fall_back set_text_content use_position add_ellipsis
    strip_end ends_sentence last join
ellipsis_cuts = refl

-- A text, and a paragraph with another.
abbrev nested : Forest
nested = text (codes "one ") (element (codes "p") sentence end)

ellipsis-Returns_example :
    Returns narrow defaults 12 none (ellipsis narrow defaults 12 none [] nested end)
ellipsis-Returns_example = ellipsis-Returns narrow defaults 12 none [] nested end

abbrev pictures : Forest
pictures = element (codes "img") end (element (codes "img") end end)

ellipsis-IsTextless_example :
    ellipsis narrow defaults 12 none [] pictures end ≡ some (kept (rev_onto pictures end))
ellipsis-IsTextless_example =
    ellipsis-IsTextless narrow defaults 12 none [] pictures end (tt, (tt, tt))

ellipsis-one_word_example :
    ellipsis narrow defaults 12 none [] (text (codes "internationalization") end) end
    ≡ some (kept end)
ellipsis-one_word_example =
    ellipsis-one_word narrow defaults 12 none refl (codes "internationalization")
      (unfold contains in refl) (unfold contains in refl)
      (unfold over whole close_all rev_onto in refl)

abbrev list_items : Forest
list_items =
    element (codes "li") (text (codes "eight...") end)
      (text (codes "between") (element (codes "li") sentence end))

children_of-KeepsFirst_example :
    KeepsFirst narrow defaults 12 none
      (elements list_items)
      end
      (children_of narrow defaults 12 none list_items)
children_of-KeepsFirst_example = children_of-KeepsFirst narrow defaults 12 none list_items

-- Markup is taken for a text.
abbrev plain_page : Page
plain_page = record {
  parse = λ t. text t end;
  escape = λ t. t;
  set_css = λ s p v. p;
  white_space = λ s. codes "normal";
  without_after = λ f. f;
}

abbrev now : Moment
now = record {
  layout = narrow;
  inner_width = 100;
  inner_height = 16;
  paddings = some 2 ∷ some 2 ∷ [];
  window_width = 640;
  window_height = 480;
}

abbrev three_events : List Event
three_events = updates now none ∷ sets_text now (codes "a new sentence") ∷ runs_timer now now ∷ []

destroy-run-init_example :
    (d d' : Dot) × (init plain_page defaults none now 1
        (untouched sentence (some (codes "color: red")))
      ≡ some d)
    × (run plain_page defaults none three_events d ≡ some d')
    × ((destroy plain_page defaults none d').content
        ≡ original_after_all plain_page three_events sentence)
    × ((destroy plain_page defaults none d').style ≡ some (codes "color: red"))
destroy-run-init_example =
    destroy-run-init plain_page defaults none (λ f. refl) now 1 sentence (codes "color: red")
      three_events
