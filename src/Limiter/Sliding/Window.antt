-- ===== src/Limiter/Sliding/Window.antt =====
-- How many requests a sliding window lets through, by the decisions of the script.
use rate_x_rate_limiter_web.Base.{
  ℕ, ◌+◌, ◌≤◌, ◌≡◌, Bool, List, [], ◌∷◌, if◌then◌else◌, arith, Bool-cases, inl, inr,
}
use rate_x_rate_limiter_web.Limiter.Sliding.{SortedSet, Config, decisions}
use rate_x_rate_limiter_web.Limiter.Times.{Follows, last}
use rate_x_rate_limiter_web.Limiter.Sliding.Spec.{in_use, admits, admitted, admitted-le, spec}
use rate_x_rate_limiter_web.Limiter.Sliding.Refines.{decisions-spec}

-- The times at which a decision was to let the request through.
abbrev pub let_through : List Bool → List ℕ → List ℕ
let_through [] times = []
let_through (b ∷ bs) [] = []
let_through (b ∷ bs) (t ∷ times) = if b then t ∷ let_through bs times else let_through bs times

in_use-cons :
    (c : Config) (now t : ℕ) (times : List ℕ)
    → in_use c now (t ∷ times) ≡ in_use c now (t ∷ []) + in_use c now times
in_use-cons c now t times = ground arith

in_use-admitted :
    (c : Config) (now : ℕ) (past times : List ℕ)
    → in_use c now (admitted c past times)
      ≡ in_use c now past + in_use c now (let_through (spec c past times) times)
in_use-admitted c now past [] = omega arith
in_use-admitted c now past (t ∷ times) = elim (Bool-cases (admits c past t)) [
  | inl room ↦ rw room (
      omega (
        arith,
        in_use-admitted c now (t ∷ past) times,
        in_use-cons c now t past,
        in_use-cons c now t (let_through (spec c (t ∷ past) times) times),
      ))
  | inr none_left ↦ rw none_left (in_use-admitted c now past times)
]

-- From an empty set, for requests at times that do not go back: at any moment from the last one on,
-- at most `limit` of the requests that the script let through lie in the window that ends then.
pub let_through-le :
    (z : SortedSet) (c : Config) (start now : ℕ) (s : z.Store) (times : List ℕ)
    → z.scores s ≡ []
    → Follows start times
    → last start times ≤ now
    → in_use c now (let_through (decisions z c s times) times) ≤ c.limit
let_through-le z c start now s times e f l = rw (decisions-spec z c start s times e f) (
    omega
      (arith, in_use-admitted c now [] times, admitted-le c start times [] now f (omega arith) l))
