-- ===== src/TextboxList/Codec/RoundTrip.antt =====
-- `decode` after `encode`, and which texts `decode` returns.
use colt_core.Base.{
  ℕ, ◌≡◌, ◌≢◌, refl, ◌∙◌, ap, Bool, true, false, some, List, [], ◌∷◌, ◌++◌, map, append_assoc,
  append-nil, inl, inr, ◌&&◌, arith, Text, ◌==◌, All, All-append, Bool-cases,
}
use mathlib.Core.List.{concat-ne-nil}
use colt_core.TextboxList.Host.{Host, Value}
use colt_core.TextboxList.Codec.{
  comma, space, label, strip, encode_text, encode_value, join, encode, pieces, decode, filled,
  plain_value,
}

abbrev pub Lacks : ℕ → Text → Type 0
Lacks c = All (λ d. d ≢ c)

-- Nothing, or a text whose first character is no space.
abbrev pub IsFlush : Text → Type 0
IsFlush [] = Unit
IsFlush (c ∷ t) = c ≢ space

-- A text that the list of pieces can hold anywhere: not empty, with no comma, and no space in front.
pub record IsPiece (t : Text) : Type 0 where
  pub nonempty : t ≢ []
  pub one_piece : Lacks comma t
  pub flush : IsFlush t

strip-Lacks : (t : Text) → Lacks comma t → strip t ≡ t
unfolding strip
strip-Lacks [] h = refl
strip-Lacks (c ∷ t) (hc, ht) = ground (arith, strip-Lacks t ht)

encode_text-Lacks : (t : Text) → t ≢ [] → Lacks comma t → encode_text t ≡ some t
unfolding encode_text
encode_text-Lacks [] n h = absurd (n refl)
encode_text-Lacks (c ∷ t) n h = ap some (strip-Lacks (c ∷ t) h)

module _ (rest : Text) where
  pieces-append :
      (t cur : Text) → Lacks comma t → pieces (t ++ rest) cur false ≡ pieces rest (cur ++ t) false
  unfolding pieces
  pieces-append [] cur h = rw append-nil
  pieces-append (c ∷ t) cur (hc, ht) =
      ground (arith, pieces-append t (cur ++ c ∷ []) ht, append_assoc cur (c ∷ []) t)

  -- Skipping ends at the first character of a text that is flush.
  pieces-IsPiece : (t : Text) → IsPiece t → pieces (t ++ rest) [] true ≡ pieces rest t false
  unfolding pieces
  pieces-IsPiece [] h = absurd (h.nonempty refl)
  pieces-IsPiece (c ∷ t) h = ground (arith, pieces-append t (c ∷ []) h.one_piece.1)

pieces_end : (t : Text) (ts : List Text) → IsPiece t → pieces t [] true ≡ t ∷ []
unfolding pieces
pieces_end t ts h = rw append-nil at (pieces-IsPiece [] t h)

-- What is left behind a comma and its space.
pieces-join :
    (t : Text) (ts : List Text) → All IsPiece (t ∷ ts) → pieces (join (t ∷ ts)) [] true ≡ t ∷ ts
unfolding pieces join
pieces-join t [] h = pieces_end t [] h.0
pieces-join t (u ∷ ts) (ht, hts) =
    rw (pieces-IsPiece (comma ∷ space ∷ join (u ∷ ts)) t ht) (ap (t ∷◌) (pieces-join u ts hts))

-- Pieces that were joined are read back; only the first one may begin with a space or be empty.
pub decode-join :
    (t : Text) (ts : List Text) → Lacks comma t → All IsPiece ts → decode (join (t ∷ ts)) ≡ t ∷ ts
unfolding decode join
decode-join t [] h hs = rw append-nil at (pieces-append [] t [] h)
decode-join t (u ∷ ts) h hs =
    rw (pieces-append (comma ∷ space ∷ join (u ∷ ts)) t [] h) (ap (t ∷◌) (pieces-join u ts hs))

-- Behind a comma no piece begins with a space.
abbrev pub IsRest : Text → Type 0
IsRest t = Lacks comma t × IsFlush t

Lacks-snoc : (t : Text) (c : ℕ) → Lacks comma t → c ≢ comma → Lacks comma (t ++ c ∷ [])
Lacks-snoc t c h n = All-append _ t (c ∷ []) h (n, tt)

IsFlush-snoc : (t : Text) (c : ℕ) → IsFlush t → (t ≡ [] → c ≢ space) → IsFlush (t ++ c ∷ [])
IsFlush-snoc [] c h n = n refl
IsFlush-snoc (d ∷ t) c h n = h

module _ (c : ℕ) (o cur : Text) (sk : Bool) where
  pieces_at_comma : (c == comma) ≡ true → pieces (c ∷ o) cur sk ≡ cur ∷ pieces o [] true
  unfolding pieces
  pieces_at_comma e = rw (e, pieces)

  pieces_at_space :
      (c == comma) ≡ false → (sk && c == space) ≡ true → pieces (c ∷ o) cur sk ≡ pieces o cur true
  unfolding pieces
  pieces_at_space e e' = rw (e, e', pieces)

  pieces_at_other :
      (c == comma) ≡ false
      → (sk && c == space) ≡ false
      → pieces (c ∷ o) cur sk ≡ pieces o (cur ++ c ∷ []) false
  unfolding pieces
  pieces_at_other e e' = rw (e, e', pieces)

pieces-IsRest :
    (o cur : Text) (skipping : Bool)
    → IsRest cur
    → (skipping ≡ false → cur ≢ [])
    → All IsRest (pieces o cur skipping)
pieces-IsRest [] cur skipping h n = unfold pieces in (h, tt)
pieces-IsRest (c ∷ o) cur skipping (lacks, flush) n = elim (Bool-cases (c == comma)) [
  | inl e ↦
      rw (pieces_at_comma c o cur skipping e)
        ((lacks, flush), pieces-IsRest o [] true (tt, tt) (λ e. cc))
  | inr e ↦ elim (Bool-cases (skipping && c == space)) [
    | inl e' ↦
        rw (pieces_at_space c o cur skipping e e')
          (pieces-IsRest o cur true (lacks, flush) (λ e. cc))
    | inr e' ↦ rw (pieces_at_other c o cur skipping e e') (
        pieces-IsRest o (cur ++ c ∷ []) false
          (
            Lacks-snoc cur c lacks (ground arith),
            IsFlush-snoc cur c flush (λ empty is_space. snoc_flush empty is_space e'),
          )
          (λ _. concat-ne-nil c cur))
  ]
]
  where
    -- An empty piece that is not being skipped was excluded.
    snoc_flush : cur ≡ [] → c ≡ space → (skipping && c == space) ≡ false → ⊥
    snoc_flush empty is_space e =
        ground (arith, Bool-cases skipping, λ (s : skipping ≡ false). n s empty)

-- Before the first comma the piece may begin with spaces.
pieces-first :
    (o cur : Text)
    → Lacks comma cur
    → (t : Text) × (ts : List Text) × (pieces o cur false ≡ t ∷ ts) × Lacks comma t × All IsRest ts
pieces-first [] cur h = (cur, [], unfold pieces in refl, h, tt)
pieces-first (c ∷ o) cur h = elim (Bool-cases (c == comma)) [
  | inl e ↦ (
    cur,
    pieces o [] true,
    pieces_at_comma c o cur false e,
    h,
    pieces-IsRest o [] true (tt, tt) (λ e. cc),
  )
  | inr e ↦
      rw (pieces_at_other c o cur false e refl)
        (pieces-first o (cur ++ c ∷ []) (Lacks-snoc cur c h (ground arith)))
]

filled-IsPiece : (ts : List Text) → All IsRest ts → All IsPiece (filled ts)
unfolding filled
filled-IsPiece [] h = tt
filled-IsPiece ([] ∷ ts) h = filled-IsPiece ts h.1
filled-IsPiece ((c ∷ t) ∷ ts) ((lacks, flush), h) =
    (record { nonempty = λ e. cc; one_piece = lacks; flush = flush }, filled-IsPiece ts h)

filled_of_IsPiece : (ts : List Text) → All IsPiece ts → filled ts ≡ ts
unfolding filled
filled_of_IsPiece [] h = refl
filled_of_IsPiece ([] ∷ ts) h = absurd (h.0.nonempty refl)
filled_of_IsPiece ((c ∷ t) ∷ ts) h = ap ((c ∷ t) ∷◌) (filled_of_IsPiece ts h.1)

filled-decode-join : (ts : List Text) → All IsPiece ts → filled (decode (join ts)) ≡ ts
filled-decode-join [] h = unfold decode pieces filled join in refl
filled-decode-join (t ∷ ts) (ht, hts) =
    rw (decode-join t ts ht.one_piece hts) (filled_of_IsPiece (t ∷ ts) (ht, hts))

-- None of the texts is empty or holds a comma, and only the first one may begin with a space.
abbrev pub IsKept : List Text → Type 0
IsKept [] = Unit
IsKept (t ∷ ts) = (t ≢ []) × Lacks comma t × All IsPiece ts

IsPiece-IsKept : (ts : List Text) → All IsPiece ts → IsKept ts
IsPiece-IsKept [] h = tt
IsPiece-IsKept (t ∷ ts) (p, ps) = (p.nonempty, p.one_piece, ps)

-- The pieces of a text that are not empty are such texts.
pub filled-decode-IsKept : (o : Text) → IsKept (filled (decode o))
unfolding decode filled
filled-decode-IsKept o = go (pieces-first o [] tt)
  where
    go :
        ((t : Text) × (ts : List Text) × (pieces o [] false ≡ t ∷ ts)
          × Lacks comma t
          × All IsRest ts)
        → IsKept (filled (decode o))
    go (c ∷ t, ts, e, h, hs) = rw e ((λ x. cc), h, filled-IsPiece ts hs)
    go ([], ts, e, h, hs) = rw e (IsPiece-IsKept (filled ts) (filled-IsPiece ts hs))

filled-decode-join-IsKept : (ts : List Text) → IsKept ts → filled (decode (join ts)) ≡ ts
unfolding filled
filled-decode-join-IsKept [] h = unfold decode pieces filled join in refl
filled-decode-join-IsKept ([] ∷ ts) (n, h, hs) = absurd (n refl)
filled-decode-join-IsKept ((c ∷ t) ∷ ts) (n, h, hs) =
    rw (decode-join (c ∷ t) ts h hs) (ap ((c ∷ t) ∷◌) (filled_of_IsPiece ts hs))

-- Decoding what was decoded and written again changes nothing: the pieces that are kept are stable.
pub filled-decode-join-decode :
    (o : Text) → filled (decode (join (filled (decode o)))) ≡ filled (decode o)
filled-decode-join-decode o = filled-decode-join-IsKept (filled (decode o)) (filled-decode-IsKept o)

abbrev pub IsClean : Value → Type 0
IsClean v = IsPiece (label v)

module _ (host : Host) where
  map_values-IsClean :
      (vs : List Value) → All IsClean vs → host.map_values encode_value vs ≡ map label vs
  unfolding encode_value
  map_values-IsClean [] h = host.map_nil encode_value
  map_values-IsClean (v ∷ vs) (hv, hvs) =
      host.map_some encode_value v vs (label v)
        (encode_text-Lacks (label v) hv.nonempty hv.one_piece)
      ∙ ap (label v ∷◌) (map_values-IsClean vs hvs)

  All-map : (vs : List Value) → All IsClean vs → All IsPiece (map label vs)
  All-map [] h = tt
  All-map (v ∷ vs) (hv, hvs) = (hv, All-map vs hvs)

  pub encode-IsClean : (vs : List Value) → All IsClean vs → encode host vs ≡ join (map label vs)
  unfolding encode
  encode-IsClean vs h = ap join (map_values-IsClean vs h)

  -- A list of values, each with a label that is not empty, holds no comma and does not begin with a
  -- space, is read back from its text: the pieces that are not empty are the labels, in order.
  pub filled-decode-encode :
      (vs : List Value) → All IsClean vs → filled (decode (encode host vs)) ≡ map label vs
  filled-decode-encode vs h =
      rw (encode-IsClean vs h) (filled-decode-join (map label vs) (All-map vs h))

  map_values-IsPiece :
      (ts : List Text) → All IsPiece ts → host.map_values encode_value (map plain_value ts) ≡ ts
  unfolding encode_value
  map_values-IsPiece [] h = host.map_nil encode_value
  map_values-IsPiece (t ∷ ts) (p, h) =
      host.map_some encode_value (plain_value t) (map plain_value ts) t
        (encode_text-Lacks t p.nonempty p.one_piece)
      ∙ ap (t ∷◌) (map_values-IsPiece ts h)

  -- Boxes made of such texts are written as those texts.
  pub encode-IsKept : (ts : List Text) → IsKept ts → encode host (map plain_value ts) ≡ join ts
  unfolding encode encode_value
  encode-IsKept [] h = ap join (host.map_nil encode_value)
  encode-IsKept (t ∷ ts) (n, h, hs) = ap join (
      host.map_some encode_value (plain_value t) (map plain_value ts) t (encode_text-Lacks t n h)
      ∙ ap (t ∷◌) (map_values-IsPiece ts hs))
