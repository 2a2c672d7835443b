-- ===== src/LogVisualizer/Kept.antt =====
-- Which batches the log visualizer keeps.
use colt_core.Base.{
  ℕ, zero, suc, ◌≤◌, ◌<◌, ◌≡◌, refl, ap, inl, inr, Bool-cases, List, [], ◌∷◌, arith, length, take,
  Text, ltb, if◌then◌else◌,
}
use colt_core.LogVisualizer.{
  Batch, Visualizer, Event, adds_messages, starts, stops, pauses, resizes, pop, most_batches,
  count_levels, no_counts, quantized, add_log_messages, clear_messages, start, stop, pause,
  resize_canvas, happen, run,
}

module _ {ℓ} {A : Type ℓ} where
  pop-take :
      (n : ℕ) (x : A) (xs : List A)
      → n < length (x ∷ take n xs)
      → pop (x ∷ take n xs) ≡ take n (x ∷ xs)
  pop-take zero x xs h = refl
  pop-take (suc n) x [] h = absurd (omega (arith, h))
  pop-take (suc n) x (y ∷ ys) h = ap (λ zs. x ∷ zs) (pop-take n y ys (omega (arith, h)))

  take-short : (n : ℕ) (xs : List A) → length (take (suc n) xs) ≤ n → take (suc n) xs ≡ take n xs
  take-short zero [] h = refl
  take-short (suc n) [] h = refl
  take-short zero (x ∷ xs) h = absurd (omega (arith, h))
  take-short (suc n) (x ∷ xs) h = ap (λ zs. x ∷ zs) (take-short n xs (omega (arith, h)))

  take-behind :
      (n : ℕ) (x : A) (xs : List A) → length (x ∷ take n xs) ≤ n → x ∷ take n xs ≡ take n (x ∷ xs)
  take-behind zero x xs h = absurd (omega (arith, h))
  take-behind (suc n) x xs h = ap (λ zs. x ∷ zs) (take-short n xs (omega (arith, h)))

  pub take-pushed :
      (n : ℕ) (x : A) (xs : List A)
      → (if ltb n (length (x ∷ take n xs)) then pop (x ∷ take n xs) else x ∷ take n xs)
        ≡ take n (x ∷ xs)
  take-pushed n x xs = elim (Bool-cases (ltb n (length (x ∷ take n xs)))) [
    | inl e ↦ rw e (pop-take n x xs (ground (arith, e)))
    | inr e ↦ rw e (take-behind n x xs (ground (arith, e)))
  ]

-- What `addLogMessages` puts before the others.
abbrev pub batch : ℕ → List Text → Batch
batch now levels = record { counts = count_levels no_counts levels; time = quantized now }

-- All batches that have come since the page was last cleared, the newest first.
unfoldable pub arrived : List Event → List Batch → List Batch
arrived [] bs = bs
arrived (adds_messages now levels ∷ events) bs = arrived events (batch now levels ∷ bs)
arrived (starts ∷ events) bs = arrived events []
arrived (stops ∷ events) bs = arrived events []
arrived (pauses ∷ events) bs = arrived events bs
arrived (resizes width ∷ events) bs = arrived events bs

add-messages :
    (now : ℕ) (levels : List Text) (bs : List Batch) (v : Visualizer)
    → v.messages ≡ take most_batches bs
    → (add_log_messages now levels v).messages ≡ take most_batches (batch now levels ∷ bs)
unfolding add_log_messages
add-messages now levels bs v e = rw e (take-pushed most_batches (batch now levels) bs)

pub run-messages :
    (events : List Event) (bs : List Batch) (v : Visualizer)
    → v.messages ≡ take most_batches bs
    → (run events v).messages ≡ take most_batches (arrived events bs)
unfolding run arrived happen start stop pause clear_messages resize_canvas
run-messages [] bs v e = e
run-messages (adds_messages now levels ∷ events) bs v e =
    run-messages events (batch now levels ∷ bs) (add_log_messages now levels v)
      (add-messages now levels bs v e)
run-messages (starts ∷ events) bs v e = run-messages events [] (start v) refl
run-messages (stops ∷ events) bs v e = run-messages events [] (stop v) refl
run-messages (pauses ∷ events) bs v e = run-messages events bs (pause v) e
run-messages (resizes width ∷ events) bs v e = run-messages events bs (resize_canvas width v) e
