-- ===== src/Dotdotdot/Forest.antt =====
-- The content of an element: texts and elements, in order. A list of contents under construction is
-- held backwards, its last node first.
use colt_core.Base.{ℕ, suc, ◌≡◌, refl, List, [], ◌∷◌, Text, ap, ◌∙◌}

-- A comment node counts as an element with nothing in it.
pub data Forest : Type 0 where
  end : Forest
  text : Text → Forest → Forest
  element : Text → Forest → Forest → Forest

-- The nodes of the first argument, backwards, and those of the second behind them.
unfoldable pub rev_onto : Forest → Forest → Forest
rev_onto end f = f
rev_onto (text t rest) f = rev_onto rest (text t f)
rev_onto (element tag kids rest) f = rev_onto rest (element tag kids f)

abbrev pub reverse : Forest → Forest
reverse f = rev_onto f end

unfoldable pub count : Forest → ℕ
count end = 0
count (text t rest) = suc (count rest)
count (element tag kids rest) = suc (count rest)

-- An element that is open: its tag, and what stands in front of it, backwards.
pub record Frame : Type 0 where
  pub tag : Text
  pub before : Forest

-- The content of the outermost element, where `f` is the content so far of the innermost open one.
unfoldable pub close_all : List Frame → Forest → Forest
close_all [] f = reverse f
close_all (c ∷ ctx) f = close_all ctx (element c.tag (reverse f) c.before)

unfoldable pub append : Forest → Forest → Forest
append end g = g
append (text t rest) g = text t (append rest g)
append (element tag kids rest) g = element tag kids (append rest g)

rev_onto-rev_onto : (f g h : Forest) → rev_onto (rev_onto f g) h ≡ rev_onto g (append f h)
unfolding rev_onto append
rev_onto-rev_onto end g h = refl
rev_onto-rev_onto (text t rest) g h = rev_onto-rev_onto rest (text t g) h
rev_onto-rev_onto (element tag kids rest) g h = rev_onto-rev_onto rest (element tag kids g) h

append-end : (f : Forest) → append f end ≡ f
unfolding append
append-end end = refl
append-end (text t rest) = ap (text t) (append-end rest)
append-end (element tag kids rest) = ap (element tag kids) (append-end rest)

pub reverse-reverse : (f : Forest) → reverse (reverse f) ≡ f
reverse-reverse f = rev_onto-rev_onto f end end ∙ unfold rev_onto in append-end f
