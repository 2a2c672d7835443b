-- ===== src/Resize/Polling.antt =====
-- The timer of jquery-resize.js.
use colt_core.Base.{
  ℕ, ◌≡◌, ◌≢◌, refl, ◌∙◌, true, false, some, inl, inr, List, [], ◌∷◌, ◌==◌, if◌then◌else◌, arith,
  length, subst, sym, length-append, All, Bool-cases, ==_refl,
}
use colt_core.Resize.{
  Watched, Poll, start, loopy, Reaction, Round, finished, Event, binds, unbinds, triggers, ticks,
  new_handler, happen, setup, bind, react, visit, each, teardown, tick, changed, has, find_watched,
  record_size,
}

module _ (reactions : ℕ → List Reaction) where
  -- The states that events lead to from the start; the sizes may be others at each event.
  pub data Reach : Poll → Type 0 where
    fresh : Reach start
    later :
        {p : Poll}
        → Reach p
        → (width height : ℕ → ℕ) (e : Event) → Reach (happen width height reactions e p)

-- One timer where an element is watched, which is that of `timeout_id`, and none otherwise.
abbrev pub IsTimed : Poll → Type 0
IsTimed p =
    (p.timers ≡ (if length p.elems == 0 then 0 else 1))
    × (p.is_live ≡ (if length p.elems == 0 then false else true))

length-has : (e : ℕ) (xs : List Watched) → has e xs ≡ true → length xs ≢ 0
length-has e [] h = unfold has in ground arith
length-has e (x ∷ xs) h = ground arith

length-record_size : (e w h : ℕ) (xs : List Watched) → length (record_size e w h xs) ≡ length xs
unfolding record_size
length-record_size e w h [] = refl
length-record_size e w h (x ∷ xs) = ground (arith, length-record_size e w h xs)

has-record_size : (k e w h : ℕ) (xs : List Watched) → has k (record_size e w h xs) ≡ has k xs
unfolding record_size has
has-record_size k e w h [] = refl
has-record_size k e w h (x ∷ xs) = ground (arith, has-record_size k e w h xs)

find_watched-has :
    (e : ℕ) (xs : List Watched) → has e xs ≡ true → (x : Watched) × (find_watched e xs ≡ some x)
unfolding has find_watched
find_watched-has e [] h = cc
find_watched-has e (x ∷ xs) h = elim (Bool-cases (x.element == e)) [
  | inl t ↦ rw t (x, refl)
  | inr t ↦ rw t (find_watched-has e xs (ground (arith, h, t)))
]

-- What a round with quiet handlers keeps.
record Same (p p' : Poll) : Type 0 where
  timers : p'.timers ≡ p.timers
  is_live : p'.is_live ≡ p.is_live
  number : length p'.elems ≡ length p.elems
  members : (k : ℕ) → has k p'.elems ≡ has k p.elems

module _ (width height : ℕ → ℕ) (reactions : ℕ → List Reaction) where
  each-step :
      (x : Watched) (xs : List Watched) (p p1 : Poll) (r : Round)
      → visit width height reactions x.element p ≡ finished p1
      → each width height reactions xs p1 ≡ r
      → each width height reactions (x ∷ xs) p ≡ r
  each-step x xs p p1 r e h = unfold each in rw (e, each) h

module _ (width height : ℕ → ℕ) (reactions : ℕ → List Reaction)
    (quiet : (e : ℕ) → reactions e ≡ []) where
  visit-Same :
      (e : ℕ) (p : Poll)
      → has e p.elems ≡ true
      → (p' : Poll) × (visit width height reactions e p ≡ finished p') × Same p p'
  visit-Same e p h =
      let (x, found) = find_watched-has e p.elems h in
      elim (Bool-cases (changed width height reactions x)) [
        | inl c ↦ (
          record p { elems = record_size e (width e) (height e) p.elems },
          unfold visit react in rw (found, c, quiet e, visit) refl,
          record {
            timers = refl;
            is_live = refl;
            number = length-record_size e (width e) (height e) p.elems;
            members = λ k. has-record_size k e (width e) (height e) p.elems;
          },
        )
        | inr c ↦ (
          p,
          unfold visit in rw (found, c, visit) refl,
          record { timers = refl; is_live = refl; number = refl; members = λ k. refl },
        )
      ]

  each-Same :
      (xs : List Watched) (p : Poll)
      → All (λ x. has x.element p.elems ≡ true) xs
      → (p' : Poll) × (each width height reactions xs p ≡ finished p') × Same p p'
  each-Same [] p h = (
    p,
    unfold each in refl,
    record { timers = refl; is_live = refl; number = refl; members = λ k. refl },
  )
  each-Same (x ∷ xs) p (h, hs) =
      let (p1, e1, s1) = visit-Same x.element p h in
      let (p2, e2, s2) = each-Same xs p1 (still s1 xs hs) in
      (
        p2,
        each-step width height reactions x xs p p1 _ e1 e2,
        record {
          timers = s2.timers ∙ s1.timers;
          is_live = s2.is_live ∙ s1.is_live;
          number = s2.number ∙ s1.number;
          members = λ k. s2.members k ∙ s1.members k;
        },
      )
    where
      still :
          {p1 : Poll}
          → Same p p1
          → (ys : List Watched) → All (λ y. has y.element p.elems ≡ true) ys
          → All (λ y. has y.element p1.elems ≡ true) ys
      still s [] h = tt
      still s (y ∷ ys) (h, hs) = (s.members y.element ∙ h, still s ys hs)

  own :
      (xs zs : List Watched)
      → ((k : ℕ) → has k xs ≡ true → has k zs ≡ true)
      → All (λ x. has x.element zs ≡ true) xs
  own [] zs h = tt
  own (x ∷ xs) zs h = (
    h x.element (unfold has in ground (arith, ==_refl x.element)),
    own xs zs (λ k t. h k (unfold has in ground (arith, t))),
  )

  happen-IsTimed : (e : Event) (p : Poll) → IsTimed p → IsTimed (happen width height reactions e p)
  unfolding happen
  happen-IsTimed (binds e) p t =
      unfold bind setup in
      ground
        (arith, t, length-append p.elems (record { element = e; w = width e; h = height e } ∷ []))
  happen-IsTimed (unbinds e) p t = unfold teardown in ground (arith, t, length-has e p.elems)
  happen-IsTimed (triggers e) p t =
      unfold new_handler react in
      ground (arith, t, quiet e, length-record_size e (width e) (height e) p.elems)
  happen-IsTimed ticks p t = elim (Bool-cases (length p.elems == 0)) [
    | inl e ↦
        let none_set : p.timers ≡ 0 = ground (arith, t, e) in
        let idle : tick width height reactions p ≡ p = unfold tick in ground (arith, none_set) in
        subst IsTimed (sym idle) t
    | inr e ↦
        let one_set : p.timers ≡ 1 = ground (arith, t, e) in
        let (p1, ran, s) =
          each-Same p.elems (record p { timers = 0; is_live = false })
            (own p.elems p.elems (λ k h. h)) in
        let next : tick width height reactions p ≡ loopy p1 =
          unfold tick in rw (one_set, ran, tick) refl in
        let timed : IsTimed (loopy p1) = ground (arith, e, s.timers, s.number) in
        subst IsTimed (sym next) timed
  ]

-- Where the handlers bind and take off nothing as they run: whatever handlers have been bound and taken
-- off otherwise, whatever events scripts have triggered and whatever timers have run, exactly one timer is
-- set while an element is watched, the one in `timeout_id`, and none otherwise.
pub Reach-IsTimed :
    (reactions : ℕ → List Reaction)
    → ((e : ℕ) → reactions e ≡ [])
    → (p : Poll) → Reach reactions p
    → IsTimed p
Reach-IsTimed reactions quiet p fresh = (refl, refl)
Reach-IsTimed reactions quiet p (later {p = q} h width height e) =
    happen-IsTimed width height reactions quiet e q (Reach-IsTimed reactions quiet q h)
