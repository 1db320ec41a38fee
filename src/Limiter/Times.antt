-- ===== src/Limiter/Times.antt =====
-- Times of requests.
use rate_x_rate_limiter_web.Base.{ℕ, ◌≤◌, List, [], ◌∷◌, arith}

-- The times do not go back, from a first one on.
abbrev pub Follows : ℕ → List ℕ → Type 0
Follows t [] = Unit
Follows t (u ∷ times) = (t ≤ u) × Follows u times

abbrev pub last : ℕ → List ℕ → ℕ
last t [] = t
last t (u ∷ times) = last u times

pub le-last : (t : ℕ) (times : List ℕ) → Follows t times → t ≤ last t times
le-last t [] h = omega arith
le-last t (u ∷ times) (h, hs) = omega (arith, le-last u times hs)
