-- ===== src/LogPage/Ring.antt =====
-- The number of the messages that the log page promises, and its counter.
use colt_core.Base.{
  ℕ, zero, suc, ◌+◌, ◌-◌, ◌≤◌, ◌≡◌, refl, true, false, inl, inr, Bool-cases, List, [], ◌∷◌, ◌++◌,
  arith, length, length-append, ℤ, pos, negsuc, pos_part, neg_part, add1, sub1, ltz, All, ap, ◌∙◌,
  ltb,
}
use colt_core.LogPage.Messages.{Message, tail, last}
use colt_core.LogPage.Actions.{
  Action, adds_messages, clears, removes_first, resizes, filters, runs_filter, runs_update, clicks,
  presses, scrolls, on_link,
}
use colt_core.LogPage.Shown.{
  Shown, is_syntax, without_syntax, show, show_all, counted, effect, effects,
}

-- The list is no longer than the counter and `d` together, and the counter is 101 at most.
abbrev pub IsBounded : ℕ → Shown → Type 0
IsBounded d s = (length s.list + neg_part s.count ≤ pos_part s.count + d) × (pos_part s.count ≤ 101)

add1_parts : (z : ℤ) → pos_part (add1 z) + neg_part z ≡ suc (pos_part z + neg_part (add1 z))
add1_parts (pos n) = omega arith
add1_parts (negsuc zero) = omega arith
add1_parts (negsuc (suc n)) = omega arith

sub1_parts : (z : ℤ) → suc (pos_part (sub1 z) + neg_part z) ≡ pos_part z + neg_part (sub1 z)
sub1_parts (pos zero) = omega arith
sub1_parts (pos (suc n)) = omega arith
sub1_parts (negsuc n) = omega arith

add1-bound : (z : ℤ) → ltz 100 z ≡ false → pos_part (add1 z) ≤ 101
add1-bound (pos n) h = ground (arith, h)
add1-bound (negsuc zero) h = omega arith
add1-bound (negsuc (suc n)) h = omega arith

sub1-bound : (z : ℤ) → pos_part (sub1 z) ≤ pos_part z
sub1-bound (pos zero) = omega arith
sub1-bound (pos (suc n)) = omega arith
sub1-bound (negsuc n) = omega arith

length-without_syntax : (ms : List Message) → length (without_syntax ms) ≤ length ms
unfolding without_syntax
length-without_syntax [] = omega arith
length-without_syntax (m ∷ ms) = ground (arith, length-without_syntax ms)

length-tail : (ms : List Message) → length (tail ms) ≡ length ms - 1
length-tail [] = omega arith
length-tail (m ∷ ms) = omega arith

counted-IsBounded :
    (d : ℕ) (s : Shown) (list : List Message)
    → length list ≤ suc (length s.list)
    → IsBounded d s
    → IsBounded d (counted (record { count = s.count; list = list }))
counted-IsBounded d s list h b = elim (Bool-cases (ltz 100 s.count)) [
  | inl e ↦ rw e (omega (arith, h, b, length-tail list), b.1)
  | inr e ↦ rw e (omega (arith, h, b, add1_parts s.count), add1-bound s.count e)
]

pub show-IsBounded : (d : ℕ) (m : Message) (s : Shown) → IsBounded d s → IsBounded d (show m s)
unfolding show
show-IsBounded d m s b =
    counted-IsBounded d s (without_syntax s.list ++ m ∷ [])
      (omega (arith, length-without_syntax s.list, length-append (without_syntax s.list) (m ∷ [])))
      b

pub show_all-IsBounded :
    (d : ℕ) (ms : List Message) (s : Shown) → IsBounded d s → IsBounded d (show_all ms s)
unfolding show_all
show_all-IsBounded d [] s b = b
show_all-IsBounded d (m ∷ ms) s b = show_all-IsBounded d ms (show m s) (show-IsBounded d m s b)

-- How often `removeFirst` has found no item since the page was last cleared: `d` times before.
unfoldable pub missed : Action → Shown → ℕ → ℕ
missed clears s d = 0
missed removes_first s d = elim s.list [ [] ↦ suc d | m ∷ ms ↦ d ]
missed _ s d = d

unfoldable pub missed_all : List Action → Shown → ℕ → ℕ
missed_all [] s d = d
missed_all (a ∷ others) s d = missed_all others (effect a s) (missed a s d)

pub removed-IsBounded :
    (d : ℕ) (list : List Message) (c : ℤ)
    → IsBounded d (record { count = c; list = list })
    → IsBounded
        (elim list [ [] ↦ suc d | m ∷ ms ↦ d ])
        (record { count = sub1 c; list = tail list })
removed-IsBounded d [] c b = (omega (arith, b, sub1_parts c), omega (arith, b, sub1-bound c))
removed-IsBounded d (m ∷ ms) c b = (omega (arith, b, sub1_parts c), omega (arith, b, sub1-bound c))

effect-IsBounded :
    (a : Action) (d : ℕ) (s : Shown) → IsBounded d s → IsBounded (missed a s d) (effect a s)
unfolding effect missed
effect-IsBounded (adds_messages now later ms) d s b = show_all-IsBounded d (last 100 ms) s b
effect-IsBounded clears d s b = omega arith
effect-IsBounded removes_first d s b = removed-IsBounded d s.list s.count b
effect-IsBounded resizes d s b = b
effect-IsBounded filters d s b = b
effect-IsBounded (runs_filter now later) d s b = b
effect-IsBounded (runs_update now) d s b = b
effect-IsBounded (clicks now selects_text id) d s b = b
effect-IsBounded (presses now key_code) d s b = b
effect-IsBounded (scrolls top) d s b = b
effect-IsBounded (on_link id e) d s b = b

pub effects-IsBounded :
    (actions : List Action) (d : ℕ) (s : Shown)
    → IsBounded d s
    → IsBounded (missed_all actions s d) (effects actions s)
unfolding effects missed_all
effects-IsBounded [] d s b = b
effects-IsBounded (a ∷ others) d s b =
    effects-IsBounded others (missed a s d) (effect a s) (effect-IsBounded a d s b)

-- With a counter past 100, an empty page stays empty, and the counter as it is.
pub show_all-full :
    (ms : List Message) (s : Shown)
    → ltz 100 s.count ≡ true
    → s.list ≡ []
    → ((show_all ms s).list ≡ []) × ((show_all ms s).count ≡ s.count)
unfolding show_all show without_syntax
show_all-full [] s h e = (e, refl)
show_all-full (m ∷ ms) s h e =
    let same : show m s ≡ record { count = s.count; list = [] } = rw (h, e) refl in
    let (l, c) = show_all-full ms (record { count = s.count; list = [] }) h refl in
    (
      ap (λ (t : Shown). (show_all ms t).list) same ∙ l,
      ap (λ (t : Shown). (show_all ms t).count) same ∙ c,
    )

abbrev pub IsError : Message → Type 0
IsError m = is_syntax m ≡ true

without_syntax-none : (ms : List Message) → All IsError ms → without_syntax ms ≡ []
unfolding without_syntax
without_syntax-none [] h = refl
without_syntax-none (m ∷ ms) (e, h) = rw e (without_syntax-none ms h)

show-error :
    (m : Message) (c : ℕ) (s : Shown)
    → All IsError s.list
    → s.count ≡ pos c
    → show m s ≡ counted (record { count = pos c; list = m ∷ [] })
unfolding show
show-error m c s k e = rw (without_syntax-none s.list k, e) refl

-- Each error takes the one before away and raises the counter, until there is no room for it.
pub show_all-errors :
    (ms : List Message) (c : ℕ) (s : Shown)
    → All IsError ms
    → All IsError s.list
    → s.count ≡ pos c
    → c ≤ 101
    → 102 ≤ c + length ms
    → ((show_all ms s).list ≡ []) × ((show_all ms s).count ≡ pos 101)
unfolding show_all
show_all-errors [] c s h k e b n = absurd (omega (arith, b, n))
show_all-errors (m ∷ ms) c s (w, h) k e b n = elim (Bool-cases (ltb 100 c)) [
  | inl t ↦
      let shown : show m s ≡ record { count = pos c; list = [] } =
        show-error m c s k e ∙ rw t refl in
      let (l, same) = show_all-full ms (record { count = pos c; list = [] }) t refl in
      let full : c ≡ 101 = ground (arith, t, b) in
      (
        ap (λ (x : Shown). (show_all ms x).list) shown ∙ l,
        ap (λ (x : Shown). (show_all ms x).count) shown ∙ same ∙ ap pos full,
      )
  | inr t ↦
      let shown : show m s ≡ record { count = pos (suc c); list = m ∷ [] } =
        show-error m c s k e ∙ rw t refl in
      let (l, same) =
        show_all-errors ms (suc c) (record { count = pos (suc c); list = m ∷ [] }) h (w, tt) refl
          (ground (arith, t)) (omega (arith, n)) in
      (
        ap (λ (x : Shown). (show_all ms x).list) shown ∙ l,
        ap (λ (x : Shown). (show_all ms x).count) shown ∙ same,
      )
]
