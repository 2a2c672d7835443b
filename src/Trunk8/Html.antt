-- ===== src/Trunk8/Html.antt =====
-- `rebuildHtmlFromBite` of trunk8.js: the tags that `getHtmlArr` found, put back around a bite.
use colt_core.Base.{
  ℕ, suc, ◌-◌, Bool, true, false, ◌||◌, ◌&&◌, Option, none, some, [], ◌∷◌, ◌++◌, Text, codes,
  text_eq, leb, ◌==◌, if◌then◌else◌, length, drop,
}
use colt_core.Tipsy.{is_space}
use colt_core.Trunk8.{Browser, Result, ok, err, ◌>>=◌, no_data}

-- What `getHtmlArr` builds: words, and tags with their name, their attributes, what stands between
-- them and the punctuation after them. A tag that closes itself has no content, not even an empty one.
mutual
  pub data Piece : Type 0 where
    word : Text → Piece
    void : Text → Text → Text → Piece
    container : Text → Text → Pieces → Text → Piece

  pub data Pieces : Type 0 where
    nil : Pieces
    cons : Piece → Pieces → Pieces

abbrev is_nil : Pieces → Bool
is_nil nil = true
is_nil (cons p ps) = false

-- What follows `w` at the start of a text.
abbrev after_prefix : Text → Text → Option Text
after_prefix [] t = some t
after_prefix (c ∷ w) [] = none
after_prefix (c ∷ w) (d ∷ t) = let rest = after_prefix w t in if c == d then rest else none

-- `text.replace(w, '')`
unfoldable pub remove_first : Text → Text → Text
remove_first w [] = []
remove_first w (c ∷ t) =
    let rest = remove_first w t in elim (after_prefix w (c ∷ t)) [ some u ↦ u | none ↦ c ∷ rest ]

-- `text.split(' ').length`
unfoldable pub count_words : Text → ℕ
count_words [] = 1
count_words (c ∷ t) = let rest = count_words t in if c == b' ' then suc rest else rest

-- `/<br\s*\/?>/` on a text: the end of the tag, and the tag anywhere.
unfoldable pub closes : Text → Bool
closes [] = false
closes (c ∷ t) =
    let rest = closes t in
    if is_space c
    then rest
    else c == b'>' || (c == b'/' && text_eq (elim t [ [] ↦ [] | d ∷ u ↦ d ∷ [] ]) (codes ">"))

unfoldable pub has_break : Text → Bool
has_break [] = false
has_break (c ∷ t) =
    let rest = has_break t in
    elim (after_prefix (codes "<br") (c ∷ t)) [ some u ↦ closes u || rest | none ↦ rest ]

-- The bite that is left, and the markup.
pub record Rebuilt {ℓ} (A : Type ℓ) : Type ℓ where
  pub bite : Text
  pub markup : Text
  pub pieces : A

module _ (browser : Browser) (fill : Text) where
  open browser use {trim}

  -- The fill goes inside a paragraph or a division.
  abbrev inner_fill : Option Text → Text
  inner_fill none = []
  inner_fill (some tag) = if text_eq tag (codes "p") || text_eq tag (codes "div") then fill else []

  -- One word, in the tag `within`, where `is_last` says that no piece follows.
  unfoldable pub rebuild_word : Option Text → Bool → Text → Text → Rebuilt Piece
  rebuild_word within is_last w bite =
      let bite_length = count_words (trim bite) in
      let gap = if is_last || leb bite_length 1 then [] else codes " " in
      if has_break w
      then record { bite = bite; markup = trim w ++ gap; pieces = word w }
      else if bite_length == 1 && leb (length (trim bite)) (length w)
      then record { bite = []; markup = trim (bite ++ inner_fill within) ++ gap; pieces = word w }
      else record { bite = remove_first w bite; markup = trim w ++ gap; pieces = word w }

  -- A tag, with what its content made. A tag whose content is shown, and which nothing follows, gets a
  -- space after it for good: the pieces are used again for the next bite.
  unfoldable pub rebuild_tag : Text → Text → Text → Rebuilt Pieces → Rebuilt Piece
  rebuild_tag tag attribs after r =
      let bite1 = remove_first after r.bite in
      if length r.markup == 0
      then record { bite = bite1; markup = []; pieces = container tag attribs r.pieces after }
      else (let after1 = if length after == 0 then codes " " else after in
          record {
            bite = bite1;
            markup =
                codes "<"
                ++ tag
                ++ attribs
                ++ codes ">"
                ++ r.markup
                ++ codes "</"
                ++ tag
                ++ codes ">"
                ++ after1;
            pieces = container tag attribs r.pieces after1;
          })

  abbrev before : Text → Piece → Rebuilt Pieces → Rebuilt Pieces
  before markup p r = record {
    bite = r.bite;
    markup = markup ++ r.markup;
    pieces = cons p r.pieces;
  }

  -- `biteHelper`: no more is shown from where the bite is used up. It reads the length of the content of
  -- a tag that has none, and throws.
  unfoldable mutual
    pub rebuild_piece : Option Text → Bool → Piece → Text → Result (Rebuilt Piece)
    rebuild_piece within is_last (word w) bite = ok (rebuild_word within is_last w bite)
    rebuild_piece within is_last (void tag attribs after) bite = err no_data
    rebuild_piece within is_last (container tag attribs content after) bite =
        rebuild_pieces (some tag) content bite >>= λ r. ok (rebuild_tag tag attribs after r)

    pub rebuild_pieces : Option Text → Pieces → Text → Result (Rebuilt Pieces)
    rebuild_pieces within nil bite = ok (record { bite = bite; markup = []; pieces = nil })
    rebuild_pieces within (cons p ps) bite = elim (length (trim bite) == 0) [
      | true ↦ ok (record { bite = bite; markup = []; pieces = cons p ps })
      | false ↦ rebuild_piece within (is_nil ps) p bite >>= λ r.
          rebuild_pieces within ps r.bite >>= λ rs. ok (before r.markup r.pieces rs)
    ]

  -- `rebuildHtmlFromBite`: the markup, and the pieces as they are left.
  unfoldable pub rebuild : Text → Pieces → Result (Text × Pieces)
  rebuild bite pieces = rebuild_pieces none pieces (remove_first fill bite) >>= λ r. ok (
    if text_eq (drop (length r.markup - length fill) r.markup) fill
        then r.markup ++ fill
        else r.markup,
    r.pieces,
  )
