-- ===== src/Limiter/Sliding.antt =====
-- The sliding window: `SlidingWindowScript` of internal/redis/scripts.go, as `Allow` of
-- internal/limiter/sliding_window.go calls it. The sorted set under the limiter's key is an
-- interface: ZREMRANGEBYSCORE, ZCARD, ZADD of a new member, ZRANGE of the first one and PEXPIRE,
-- with their effect on the scores in ascending order.
pub mod Spec
pub mod Refines
pub mod Window
use rate_x_rate_limiter_web.Base.{
  ℕ, ◌+◌, ◌-◌, ◌*◌, ◌/◌, ◌≡◌, Bool, true, false, Option, none, some, List, [], ◌∷◌, keep, length,
  first, ltb, leb, max, if◌then◌else◌,
}
use rate_x_rate_limiter_web.Limiter.{Decision}

-- A score put in its place among scores in ascending order.
abbrev pub insert : ℕ → List ℕ → List ℕ
insert x [] = x ∷ []
insert x (y ∷ ys) = if leb y x then y ∷ insert x ys else x ∷ y ∷ ys

pub record SortedSet : Type 1 where
  pub Store : Type 0
  pub scores : Store → List ℕ
  pub remove_through : ℕ → Store → Store
  pub card : Store → ℕ
  pub add : ℕ → Store → Store
  pub oldest : Store → Option ℕ
  pub expire : ℕ → Store → Store
  pub scores-remove_through :
      (m : ℕ) (s : Store) → scores (remove_through m s) ≡ keep (λ x. ltb m x) (scores s)
  pub card-eq : (s : Store) → card s ≡ length (scores s)
  pub scores-add : (x : ℕ) (s : Store) → scores (add x s) ≡ insert x (scores s)
  pub oldest-eq : (s : Store) → oldest s ≡ first (scores s)
  pub scores-expire : (ttl : ℕ) (s : Store) → scores (expire ttl s) ≡ scores s

-- `limit` requests in any `window` milliseconds.
pub record Config : Type 0 where
  pub limit : ℕ
  pub window : ℕ

-- `math.ceil(((oldest + window_ms) - now_ms) / 1000)`, at least 1, or 1 with no score.
abbrev pub retry_after : Config → ℕ → Option ℕ → ℕ
retry_after c now none = 1
retry_after c now (some score) = max 1 ((score + c.window - now + 999) / 1000)

module _ (z : SortedSet) where
  open z use {Store, remove_through, card, add, oldest, expire}

  -- Scores from 0 to `now_ms - window_ms` go: none, where that is negative.
  unfoldable pub trimmed : Config → ℕ → Store → Store
  trimmed c now s = if ltb now c.window then s else remove_through (now - c.window) s

  -- The script from the trimmed set on.
  unfoldable pub decide : Config → ℕ → Store → Decision × Store
  decide c now s =
      if ltb (card s) c.limit
      then (
        record {
          allowed = true;
          remaining = c.limit - card s - 1;
          retry_after = 0;
          limit = c.limit;
          reset_after = c.window / 1000;
        },
        expire (2 * c.window) (add now s),
      )
      else (
        record {
          allowed = false;
          remaining = 0;
          retry_after = retry_after c now (oldest s);
          limit = c.limit;
          reset_after = c.window / 1000;
        },
        expire (2 * c.window) s,
      )

  unfoldable pub allow : Config → ℕ → Store → Decision × Store
  allow c now s = decide c now (trimmed c now s)

  -- The decisions on requests at the given times.
  abbrev pub decisions : Config → Store → List ℕ → List Bool
  decisions c s [] = []
  decisions c s (t ∷ times) = (allow c t s).0.allowed ∷ decisions c (allow c t s).1 times
