-- ===== src/LogPage/History.antt =====
-- Without syntax errors, the log page promises the last messages that have come.
use colt_core.Base.{
  ℕ, ◌+◌, ◌-◌, ◌≤◌, ◌<◌, ◌≡◌, refl, ap, ◌∙◌, sym, subst, false, inl, inr, List, [], ◌∷◌, ◌++◌,
  arith, length, length-append, All, All-append, All-drop, ltb, ltb→lt, leb, Bool-cases,
  append_assoc, append-nil, suc, ℤ, sub_ℕ, ltz-sub_ℕ, add1-sub_ℕ, sub1-sub_ℕ, sub_ℕ-suc-suc, sub1,
}
use colt_core.LogPage.Messages.{Message, last, tail}
use colt_core.LogPage.Actions.{
  Action, adds_messages, clears, removes_first, resizes, filters, runs_filter, runs_update, clicks,
  presses, scrolls, on_link,
}
use colt_core.LogPage.Shown.{
  Shown, nothing, is_syntax, without_syntax, counted, show, show_all, effect, effects,
}
use colt_core.LogPage.Batches.{last_behind, last_all}
use colt_core.LogPage.Ring.{IsBounded, show-IsBounded, show_all-IsBounded, removed-IsBounded}

abbrev pub IsNoSyntax : Message → Type 0
IsNoSyntax m = is_syntax m ≡ false

without_syntax-same : (ms : List Message) → All IsNoSyntax ms → without_syntax ms ≡ ms
unfolding without_syntax
without_syntax-same [] h = refl
without_syntax-same (m ∷ ms) (e, h) = rw e (ap (λ l. m ∷ l) (without_syntax-same ms h))

module _ {ℓ} {A : Type ℓ} where
  last-last : (n : ℕ) (xs ys : List A) → last n (last n xs ++ ys) ≡ last n (xs ++ ys)
  last-last n [] ys = ap (λ zs. last n (zs ++ ys)) (last_all n [] (omega arith))
  last-last n (x ∷ xs) ys = elim (Bool-cases (leb n (length xs))) [
    | inl e ↦
        ap (λ zs. last n (zs ++ ys)) (last_behind n x xs (ground (arith, e)))
        ∙ last-last n xs ys
        ∙ sym (last_behind n x (xs ++ ys) (ground (arith, e, length-append xs ys)))
    | inr e ↦ ap (λ zs. last n (zs ++ ys)) (last_all n (x ∷ xs) (ground (arith, e)))
  ]

-- Without syntax errors, where `removeFirst` has found no item `d` times: the counter is the number of the
-- messages less `d`, which are the last of the history.
pub record IsLast (d : ℕ) (history : List Message) (s : Shown) : Type 0 where
  pub none_wrong : All IsNoSyntax s.list
  pub counts : s.count ≡ sub_ℕ (length s.list) d
  pub last_of : s.list ≡ last (101 + d) history

counted-IsLast :
    (d : ℕ) (list : List Message) (l : ℕ)
    → All IsNoSyntax list
    → length list ≡ suc l
    → l ≤ 101 + d
    → IsLast d list (counted (record { count = sub_ℕ l d; list = list }))
counted-IsLast d [] l h e b = absurd (omega (arith, e))
counted-IsLast d (m ∷ ms) l h e b = elim (Bool-cases (ltb (100 + d) l)) [
  | inl t ↦
      let room : 100 + d < l = ltb→lt (100 + d) l t in
      let same : length ms ≡ l = omega (arith, e) in
      rw (ltz-sub_ℕ 100 l d ∙ t) (record {
        none_wrong = h.1;
        counts = ap (λ (k : ℕ). sub_ℕ k d) (sym same);
        last_of = sym (
            last_behind (101 + d) m ms (omega (arith, e, room))
            ∙ last_all (101 + d) ms (omega (arith, e, b)));
      })
  | inr t ↦ rw (ltz-sub_ℕ 100 l d ∙ t) (record {
    none_wrong = h;
    counts = add1-sub_ℕ l d ∙ ap (λ (k : ℕ). sub_ℕ k d) (sym e);
    last_of = sym (last_all (101 + d) (m ∷ ms) (ground (arith, t, e)));
  })
]

-- A counter that is the number of the messages less `d` bounds them.
length-IsBounded : (d : ℕ) (s : Shown) → IsBounded d s → length s.list ≤ 101 + d
length-IsBounded d s b = omega (arith, b)

show-IsLast :
    (d : ℕ) (m : Message) (history : List Message) (s : Shown)
    → IsNoSyntax m
    → IsBounded d s
    → IsLast d history s
    → IsLast d (history ++ m ∷ []) (show m s)
unfolding show
show-IsLast d m history s h b l =
    let list = s.list ++ m ∷ [] in
    let c =
      counted-IsLast d list (length s.list)
        (All-append IsNoSyntax s.list (m ∷ []) l.none_wrong (h, tt))
        (omega (arith, length-append s.list (m ∷ []))) (length-IsBounded d s b) in
    rw (without_syntax-same s.list l.none_wrong, l.counts)
      (record {
        none_wrong = c.none_wrong;
        counts = c.counts;
        last_of =
            c.last_of
            ∙ ap (λ xs. last (101 + d) (xs ++ m ∷ [])) l.last_of
            ∙ last-last (101 + d) history (m ∷ []);
      })

show_all-IsLast :
    (d : ℕ) (ms history : List Message) (s : Shown)
    → All IsNoSyntax ms
    → IsBounded d s
    → IsLast d history s
    → IsLast d (history ++ ms) (show_all ms s)
unfolding show_all
show_all-IsLast d [] history s h b l = subst (λ xs. IsLast d xs s) (sym (append-nil history)) l
show_all-IsLast d (m ∷ ms) history s (h, hs) b l =
    subst (λ xs. IsLast d xs (show_all ms (show m s))) (append_assoc history (m ∷ []) ms)
      (show_all-IsLast d ms (history ++ m ∷ []) (show m s) hs (show-IsBounded d m s b)
        (show-IsLast d m history s h b l))

-- What has come since the page was last cleared and was not taken off: of each batch, the last hundred
-- messages. `missed` says how often `removeFirst` has found no item since then; it takes the oldest of the
-- last 101, or of one more for each time that it has found none.
pub record Ledger : Type 0 where
  pub missed : ℕ
  pub history : List Message

abbrev pub new_ledger : Ledger
new_ledger = record { missed = 0; history = [] }

unfoldable pub take_first : ℕ → List Message → Ledger
take_first d [] = record { missed = suc d; history = [] }
take_first d (m ∷ ms) = record { missed = d; history = ms }

unfoldable pub entry : Action → Ledger → Ledger
entry (adds_messages now later ms) l = record l { history = l.history ++ last 100 ms }
entry clears l = new_ledger
entry removes_first l = take_first l.missed (last (101 + l.missed) l.history)
entry _ l = l

unfoldable pub ledger : List Action → Ledger → Ledger
ledger [] l = l
ledger (a ∷ others) l = ledger others (entry a l)

-- No message that the action brings is a syntax error.
abbrev pub BringsNoSyntax : Action → Type 0
BringsNoSyntax (adds_messages now later ms) = All IsNoSyntax ms
BringsNoSyntax clears = Unit
BringsNoSyntax removes_first = Unit
BringsNoSyntax resizes = Unit
BringsNoSyntax filters = Unit
BringsNoSyntax (runs_filter now later) = Unit
BringsNoSyntax (runs_update now) = Unit
BringsNoSyntax (clicks now selects_text id) = Unit
BringsNoSyntax (presses now key_code) = Unit
BringsNoSyntax (scrolls top) = Unit
BringsNoSyntax (on_link id e) = Unit

-- The page shows what the ledger says.
abbrev pub Follows : Ledger → Shown → Type 0
Follows l s = IsBounded l.missed s × IsLast l.missed l.history s

-- The oldest message goes, or the page is missing one more.
taken-Follows :
    (d : ℕ) (list : List Message) (c : ℤ)
    → All IsNoSyntax list
    → c ≡ sub_ℕ (length list) d
    → IsBounded d (record { count = c; list = list })
    → Follows (take_first d list) (record { count = sub1 c; list = tail list })
unfolding take_first
taken-Follows d [] c h e b = (
  removed-IsBounded d [] c b,
  record {
    none_wrong = tt;
    counts = ap sub1 e ∙ sub1-sub_ℕ 0 d;
    last_of = sym (last_all (101 + suc d) [] (omega arith));
  },
)
taken-Follows d (m ∷ ms) c (w, h) e b = (
  removed-IsBounded d (m ∷ ms) c b,
  record {
    none_wrong = h;
    counts = ap sub1 e ∙ sub1-sub_ℕ (suc (length ms)) d ∙ sub_ℕ-suc-suc (length ms) d;
    last_of = sym (last_all (101 + d) ms (omega (arith, b)));
  },
)

removed-Follows :
    (d : ℕ) (s : Shown) (history : List Message)
    → IsBounded d s
    → IsLast d history s
    → Follows (take_first d (last (101 + d) history)) (effect removes_first s)
unfolding effect
removed-Follows d s history b l =
    subst
      (λ (xs : List Message).
        Follows (take_first d xs) (record { count = sub1 s.count; list = tail s.list }))
      l.last_of (taken-Follows d s.list s.count l.none_wrong l.counts b)

pub nothing-Follows : Follows new_ledger nothing
unfolding sub_ℕ
nothing-Follows = (omega arith, record { none_wrong = tt; counts = refl; last_of = refl })

effect-Follows :
    (a : Action) (l : Ledger) (s : Shown)
    → BringsNoSyntax a
    → Follows l s
    → Follows (entry a l) (effect a s)
unfolding entry effect
effect-Follows (adds_messages now later ms) l s h (b, f) = (
  show_all-IsBounded l.missed (last 100 ms) s b,
  show_all-IsLast l.missed (last 100 ms) l.history s (All-drop IsNoSyntax (length ms - 100) ms h) b
      f,
)
effect-Follows clears l s h f = nothing-Follows
effect-Follows removes_first l s h (b, f) =
    unfold effect in removed-Follows l.missed s l.history b f
effect-Follows resizes l s h f = f
effect-Follows filters l s h f = f
effect-Follows (runs_filter now later) l s h f = f
effect-Follows (runs_update now) l s h f = f
effect-Follows (clicks now selects_text id) l s h f = f
effect-Follows (presses now key_code) l s h f = f
effect-Follows (scrolls top) l s h f = f
effect-Follows (on_link id e) l s h f = f

pub effects-Follows :
    (actions : List Action) (l : Ledger) (s : Shown)
    → All BringsNoSyntax actions
    → Follows l s
    → Follows (ledger actions l) (effects actions s)
unfolding ledger effects
effects-Follows [] l s h f = f
effects-Follows (a ∷ others) l s (h, hs) f =
    effects-Follows others (entry a l) (effect a s) hs (effect-Follows a l s h f)
