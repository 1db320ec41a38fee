-- ===== src/Limiter/Fixed.antt =====
-- The fixed window: `Allow` of internal/limiter/fixed_window.go. Redis is an interface: INCR, EXPIRE
-- and TTL with what the code relies on of them, while the keys in use do not expire.
pub mod Quota
use rate_x_rate_limiter_web.Base.{
  ℕ, suc, ◌-◌, ◌/◌, ◌≤◌, ◌≡◌, ◌≢◌, String, Bool, true, Option, none, some, List, [], ◌∷◌, Result,
  ok, err, leb, ◌==◌, if◌then◌else◌,
}
use rate_x_rate_limiter_web.Text.{join, show}
use rate_x_rate_limiter_web.Limiter.{Decision}

-- INCR answers the new count, or fails; EXPIRE answers nothing, or fails. `ttl` is
-- `int(ttl.Seconds())`, none if that is negative.
pub record Counters : Type 1 where
  pub Store : Type 0
  pub count : Store → String → ℕ
  pub incr : String → Store → Result ℕ × Store
  pub expire : String → ℕ → Store → Result (Unit {0}) × Store
  pub ttl : String → Store → Option ℕ
  -- The answer is the count, one more than before, and no other key changes.
  pub incr-ok :
      (k : String) (s : Store) (n : ℕ)
      → (incr k s).0 ≡ ok n
      → (n ≡ suc (count s k)) × (count (incr k s).1 k ≡ suc (count s k))
  -- A call that fails may have counted.
  pub incr-err :
      (k : String) (s : Store) (e : String)
      → (incr k s).0 ≡ err e
      → count s k ≤ count (incr k s).1 k
  pub count-expire :
      (k : String) (window : ℕ) (s : Store) (j : String) → count (expire k window s).1 j ≡ count s j

-- `limit` requests in a window of `window` seconds.
pub record Config : Type 0 where
  pub limit : ℕ
  pub window : ℕ

-- The key of a client in the window of a moment (in seconds).
abbrev pub redis_key : Config → String → ℕ → String
redis_key c key now = join ("rl:fixed" ∷ ":" ∷ key ∷ ":" ∷ show (now / c.window) ∷ [])

-- The seconds left of the window, as far as Redis tells them.
abbrev reset_after : Config → Option ℕ → ℕ
reset_after c none = c.window
reset_after c (some seconds) = seconds

-- The decision for a count; `limit - count` stops at 0, as the source makes it.
abbrev pub decide : Config → ℕ → Option ℕ → Decision
decide c n left = record {
  allowed = leb n c.limit;
  remaining = c.limit - n;
  retry_after = reset_after c left;
  limit = c.limit;
  reset_after = reset_after c left;
}

module _ (r : Counters) where
  open r use {Store, incr, expire, ttl}

  -- After the EXPIRE of a first request.
  abbrev expired : Config → String → ℕ → Result (Unit {0}) × Store → Result Decision × Store
  expired c k n (err e, s) = (err e, s)
  expired c k n (ok _, s) = (ok (decide c n (ttl k s)), s)

  -- After the INCR.
  abbrev counted : Config → String → Result ℕ × Store → Result Decision × Store
  counted c k (err e, s) = (err e, s)
  counted c k (ok n, s) =
      if n == 1 then expired c k n (expire k c.window s) else (ok (decide c n (ttl k s)), s)

  unfoldable pub allow : Config → String → ℕ → Store → Result Decision × Store
  allow c key now s = counted c (redis_key c key now) (incr (redis_key c key now) s)
