-- ===== src/Tipsy/Elements.antt =====
-- `$.fn.tipsy` of jquery.tipsy.js on the elements of a page: which of them has a tooltip, the methods
-- that a caller names, and the tips of elements that are gone.
use colt_core.Base.{
  ℕ, ◌≡◌, Bool, true, false, not, ◌||◌, Option, none, some, List, [], ◌∷◌, Text, codes, ◌==◌,
  text_eq, if◌then◌else◌, arith, Option-cases, inl, inr,
}
use colt_core.Tipsy.{Options, Tooltip, create, fix_title, show, hide}

-- A tooltip; `validate` takes the element and the options from it.
pub data Entry : Type 0 where
  live dead : Tooltip → Entry

-- The data `tipsy` of the elements, which are known by numbers.
abbrev pub Tooltips : Type 0
Tooltips = List (ℕ × Entry)

unfoldable pub tooltip_of : ℕ → Tooltips → Option Entry
tooltip_of e [] = none
tooltip_of e ((f, s) ∷ ts) = if f == e then some s else tooltip_of e ts

unfoldable pub put_tooltip : ℕ → Entry → Tooltips → Tooltips
put_tooltip e s [] = (e, s) ∷ []
put_tooltip e s ((f, t) ∷ ts) = if f == e then (f, s) ∷ ts else (f, t) ∷ put_tooltip e s ts

-- The attributes `title` and `original-title` of an element.
abbrev pub Titles : Type 0
Titles = Option Text × Option Text

-- `get`: the tooltip of an element, made if there is none yet.
unfoldable pub get : ℕ → Titles → Tooltips → Entry × Tooltips
get e (title, original) ts = elim (tooltip_of e ts) [
  | some s ↦ (s, ts)
  | none ↦ (live (create title original), put_tooltip e (live (create title original)) ts)
]

-- `validate`, by whether the element has a parent.
unfoldable pub validate : Options → Bool → Tooltip → Entry
validate opts has_parent s = if has_parent then live s else dead (hide opts s)

-- `enable`, `disable` and `toggleEnabled`
unfoldable pub switched : Text → Tooltip → Option Tooltip
switched name s =
    if text_eq name (codes "enable")
    then some (record s { enabled = true })
    else if text_eq name (codes "disable")
    then some (record s { enabled = false })
    else if text_eq name (codes "toggleEnabled")
    then some (record s { enabled = not s.enabled })
    else none

-- `tipsy[options]()`: the method with a name; `none` is the exception of a name that is no method, or of
-- a method that reads the element or the options after `validate` took them.
unfoldable pub call_method : Options → Bool → Text → Entry → Option Entry
call_method opts has_parent name (live s) =
    if text_eq name (codes "show")
    then some (live (show opts s))
    else if text_eq name (codes "hide")
    then some (live (hide opts s))
    else if text_eq name (codes "fixTitle") || text_eq name (codes "getTitle")
    then some (live (fix_title s))
    else if text_eq name (codes "tip")
    then some (live s)
    else if text_eq name (codes "validate")
    then some (validate opts has_parent s)
    else elim (switched name s) [ none ↦ none | some s' ↦ some (live s') ]
call_method opts has_parent name (dead s) =
    if text_eq name (codes "tip")
    then some (dead s)
    else elim (switched name s) [ none ↦ none | some s' ↦ some (dead s') ]

-- `$(e).tipsy(name)`: nothing happens on an element that has no tooltip.
unfoldable pub call : Options → Bool → ℕ → Text → Tooltips → Option Tooltips
call opts has_parent e name ts = elim (tooltip_of e ts) [
  | none ↦ some ts
  | some s ↦ elim (call_method opts has_parent name s) [
    | none ↦ none
    | some s' ↦ some (put_tooltip e s' ts)
  ]
]

-- `isElementInDOM`, by the parents of the element, the nearest first.
unfoldable pub is_element_in_dom : ℕ → List ℕ → Bool
is_element_in_dom document [] = false
is_element_in_dom document (p ∷ ps) = p == document || is_element_in_dom document ps

-- A tip of the page, with its data `tipsy-pointee`.
pub record Tip : Type 0 where
  pub pointee : Option ℕ
  pub content : Text

-- `revalidate`: the tips whose element is in the document stay.
unfoldable pub revalidate : ℕ → (ℕ → List ℕ) → List Tip → List Tip
revalidate document parents [] = []
revalidate document parents (t ∷ ts) =
    let rest = revalidate document parents ts in
    elim t.pointee [
      | none ↦ rest
      | some e ↦ if is_element_in_dom document (parents e) then t ∷ rest else rest
    ]

tooltip_of-put_tooltip :
    (e : ℕ) (s : Entry) (ts : Tooltips) → tooltip_of e (put_tooltip e s ts) ≡ some s
unfolding tooltip_of put_tooltip
tooltip_of-put_tooltip e s [] = ground arith
tooltip_of-put_tooltip e s ((f, t) ∷ ts) = ground (arith, tooltip_of-put_tooltip e s ts)

get_found :
    (e : ℕ) (titles : Titles) (s : Entry) (ts : Tooltips)
    → tooltip_of e ts ≡ some s
    → get e titles ts ≡ (s, ts)
unfolding get
get_found e titles s ts h = rw (h, get)

get_missing :
    (e : ℕ) (titles : Titles) (ts : Tooltips)
    → tooltip_of e ts ≡ none
    → get e titles ts
      ≡ (live (create titles.0 titles.1), put_tooltip e (live (create titles.0 titles.1)) ts)
unfolding get
get_missing e titles ts h = rw (h, get)

-- An element gets one tooltip: asked again, with whatever titles, it has the same, and nothing changes.
pub get-get :
    (e : ℕ) (titles later : Titles) (ts : Tooltips)
    → get e later (get e titles ts).1 ≡ get e titles ts
get-get e titles later ts = elim (Option-cases (tooltip_of e ts)) [
  | inr (s, h) ↦ rw (get_found e titles s ts h) (get_found e later s ts h)
  | inl h ↦ rw (get_missing e titles ts h) (
      get_found e later (live (create titles.0 titles.1))
        (put_tooltip e (live (create titles.0 titles.1)) ts)
        (tooltip_of-put_tooltip e (live (create titles.0 titles.1)) ts))
]
