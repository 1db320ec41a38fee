-- ===== src/Limiter/Sliding/Spec.antt =====
-- What a sliding window promises, with no regard to how it is stored: it remembers every request
-- that it let through, and lets another one through if fewer than the limit lie in the window.
use rate_x_rate_limiter_web.Base.{
  ℕ, ◌+◌, ◌≤◌, Bool, List, [], ◌∷◌, keep, length, ltb, if◌then◌else◌, arith, Bool-cases, inl, inr,
}
use rate_x_rate_limiter_web.Limiter.Times.{Follows, last}
use rate_x_rate_limiter_web.Limiter.Sliding.{Config}

-- Later than `now - window`.
abbrev pub in_window : Config → ℕ → ℕ → Bool
in_window c now t = ltb now (t + c.window)

-- How many of the given times lie in the window that ends now.
abbrev pub in_use : Config → ℕ → List ℕ → ℕ
in_use c now times = length (keep (in_window c now) times)

abbrev pub admits : Config → List ℕ → ℕ → Bool
admits c past now = ltb (in_use c now past) c.limit

abbrev pub admit : Config → List ℕ → ℕ → List ℕ
admit c past now = if admits c past now then now ∷ past else past

-- The requests let through, and the decisions, for requests at the given times.
abbrev pub admitted : Config → List ℕ → List ℕ → List ℕ
admitted c past [] = past
admitted c past (t ∷ times) = admitted c (admit c past t) times

abbrev pub spec : Config → List ℕ → List ℕ → List Bool
spec c past [] = []
spec c past (t ∷ times) = admits c past t ∷ spec c (admit c past t) times

pub in_use_mono : (c : Config) (t u : ℕ) (past : List ℕ) → t ≤ u → in_use c u past ≤ in_use c t past
in_use_mono c t u [] h = omega arith
in_use_mono c t u (p ∷ past) h = ground (arith, in_use_mono c t u past h)

pub admit-le :
    (c : Config) (t u : ℕ) (past : List ℕ)
    → t ≤ u
    → in_use c t past ≤ c.limit
    → in_use c u (admit c past u) ≤ c.limit
admit-le c t u past h k = elim (Bool-cases (admits c past u)) [
  | inl room ↦ rw room (ground arith)
  | inr none_left ↦ rw none_left (omega (arith, in_use_mono c t u past h))
]

-- At any moment from the last request on, at most `limit` of the requests let through lie in the
-- window that ends then.
pub admitted-le :
    (c : Config) (t : ℕ) (times past : List ℕ) (now : ℕ)
    → Follows t times
    → in_use c t past ≤ c.limit
    → last t times ≤ now
    → in_use c now (admitted c past times) ≤ c.limit
admitted-le c t [] past now h k l = omega (arith, in_use_mono c t now past l)
admitted-le c t (u ∷ times) past now (h, hs) k l =
    admitted-le c u times (admit c past u) now hs (admit-le c t u past h k) l
