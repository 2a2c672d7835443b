-- ===== src/Dotdotdot/Plugin/Queries.antt =====
-- The events `isTruncated.dot` and `originalContent.dot` of dotdotdot.js.
use colt_core.Base.{ℕ, Bool, Option, none, some, List, [], ◌∷◌, if◌then◌else◌}
use colt_core.Dotdotdot.Forest.{Forest}
use colt_core.Dotdotdot.Plugin.{Dot}

-- What a query returns, and the calls of the function that came with it, which is known by a number.
pub record Answer {ℓ} (A : Type ℓ) : Type ℓ where
  pub value : A
  pub calls : List (ℕ × A)

abbrev told {ℓ} : {A : Type ℓ} → Option ℕ → A → Answer A
told none a = record { value = a; calls = [] }
told (some f) a = record { value = a; calls = (f, a) ∷ [] }

-- `none` is the answer of an element whose handlers are unbound.
unfoldable pub is_truncated : Option ℕ → Dot → Option (Answer Bool)
is_truncated f d = if d.is_active then some (told f d.is_truncated) else none

unfoldable pub original_content : Option ℕ → Dot → Option (Answer Forest)
original_content f d = if d.is_active then some (told f d.org_content) else none
