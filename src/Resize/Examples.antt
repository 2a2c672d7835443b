-- ===== src/Resize/Examples.antt =====
-- The theorems on the special event `resize` at concrete inputs.
use colt_core.Base.{ℕ, ◌+◌, refl, List, [], ◌∷◌}
use colt_core.Resize.{Watched, Poll, Reaction, unbinds_from, start, binds, unbinds, ticks, happen}
use colt_core.Resize.Polling.{fresh, later, IsTimed, Reach-IsTimed}

abbrev wide : ℕ → ℕ
wide e = 640 + e

abbrev wider : ℕ → ℕ
wider e = 800 + e

abbrev high : ℕ → ℕ
high e = 20

abbrev none_of : ℕ → List Reaction
none_of e = []

-- Two elements are bound, a timer runs, and one of them goes.
abbrev used : Poll
used = happen wider high none_of (unbinds 0) (
    happen wider high none_of ticks
      (happen wide high none_of (binds 1) (happen wide high none_of (binds 0) start)))

Reach-IsTimed_example : IsTimed used
Reach-IsTimed_example =
    Reach-IsTimed none_of (λ e. refl) used
      (later (later (later (later fresh wide high (binds 0)) wide high (binds 1)) wider high ticks)
        wider high (unbinds 0))

abbrev body : Watched
body = record { element = 0; w = 640; h = 20 }

abbrev goes : ℕ → List Reaction
goes e = unbinds_from e ∷ []
