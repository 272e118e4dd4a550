-- ===== src/Base/Table.antt =====
-- Tables from addresses to values.
use lazyserver.Base.{ℕ, List, [], ◌∷◌, Option, some, none, ◌==◌, if◌then◌else◌}

abbrev pub find {ℓ} : {A : Type ℓ} → ℕ → List (ℕ × A) → Option A
find p [] = none
find p ((q, h) ∷ sessions) = if q == p then some h else find p sessions

abbrev pub replace {ℓ} : {A : Type ℓ} → ℕ → A → List (ℕ × A) → List (ℕ × A)
replace p h [] = []
replace p h ((q, g) ∷ sessions) =
    if q == p then (q, h) ∷ sessions else (q, g) ∷ replace p h sessions

abbrev pub remove {ℓ} : {A : Type ℓ} → ℕ → List (ℕ × A) → List (ℕ × A)
remove p [] = []
remove p ((q, g) ∷ sessions) = if q == p then sessions else (q, g) ∷ remove p sessions
