-- ===== src/Dotdotdot/Ellipsis/Limits.antt =====
-- A single word and dotdotdot.js: the search by words is not entered, nor the one by letters after it.
use colt_core.Base.{ℕ, ◌≡◌, refl, true, false, some, [], ◌∷◌, ◌++◌, arith, Text, length}
use colt_core.Dotdotdot.Forest.{end, text}
use colt_core.Dotdotdot.Content.{
  Layout, Options, word, contains, separator, split, split_at, get_text_content,
}
use colt_core.Dotdotdot.Search.{restart}
use colt_core.Dotdotdot.Search.Rule.{search_closed}
use colt_core.Dotdotdot.Ellipsis.{
  kept, After, over, cut_text, use_position, leave_parent, ellipsis_element, ellipsis,
}

module _ (c : ℕ) where
  split_at_absent : (cur t : Text) → contains c t ≡ false → length (split_at c cur t) ≡ 1
  unfolding split_at contains
  split_at_absent cur [] h = refl
  split_at_absent cur (d ∷ t) h = ground (arith, split_at_absent (cur ++ d ∷ []) t)

module _ (layout : Layout) (opts : Options) (max_height : ℕ) (after : After)
    (by_word : opts.wrap ≡ word) where
  -- With the option `wrap` at `word`, and where a text of one word, with no blank and no ideographic space,
  -- is the only content: if it does not fit, it is dropped whole and counts as not cut, whatever
  -- `fallbackToLetter` is.
  pub ellipsis-one_word :
      (t : Text)
      → contains b' ' t ≡ false
      → contains 12288 t ≡ false
      → over layout opts max_height after [] (text t end) ≡ true
      → ellipsis layout opts max_height after [] (text t end) end ≡ some (kept end)
  unfolding ellipsis ellipsis_element
  ellipsis-one_word t s i o =
      rw o (
        rw (searched, ellipsis_element) (unfold use_position leave_parent ellipsis_element in refl))
    where
      sep : separator opts.wrap t ≡ some 12288
      sep = rw by_word (unfold separator in rw s)

      one : length (split (separator opts.wrap t) t) ≡ 1
      one = rw sep (unfold split in split_at_absent 12288 [] t i)

      searched :
          cut_text layout opts max_height after [] (text t end)
          ≡ some (restart (separator opts.wrap t) (split (separator opts.wrap t) t) (text t end))
      searched =
          unfold cut_text get_text_content in
          search_closed layout opts (over layout opts max_height after []) _ _ (omega arith)
            (ground (arith, one))
