-- ===== src/Limiter/Replies/Failures.antt =====
-- The token bucket while calls of Redis fail.
use rate_x_rate_limiter_web.Base.{
  ℕ, ◌+◌, ◌-◌, ◌*◌, ◌≤◌, ◌<◌, ◌≡◌, inl, inr, refl, false, Option, none, some, List, [], ◌∷◌, Result,
  ok, err, arith, ◌==◌, ap,
}
use rate_x_rate_limiter_web.Limiter.{Decision}
use rate_x_rate_limiter_web.Limiter.Token.{
  Config, script, stored, full, refilled, take_token, Bucket,
}
use rate_x_rate_limiter_web.Limiter.Token as Token
use rate_x_rate_limiter_web.Limiter.Times.{Follows, last, le-last}
use rate_x_rate_limiter_web.Limiter.Token.Bounds.{
  parts, parts-eq, take_token_balance, refilled-le, split_refill, last_refill-take_token,
}
use rate_x_rate_limiter_web.Limiter.Replies.{let_by}
use rate_x_rate_limiter_web.Limiter.Replies.Bucket.{Redis, allow, Answers, allow-Answers}

-- The parts of tokens that a hash is worth at a moment.
abbrev worth : Config → ℕ → Option Bucket → ℕ
worth c now hash = refilled c now (stored c now hash)

mono-mul : (x y cap : ℕ) → x ≤ y → x * cap ≤ y * cap
mono-mul x y cap h = grind arith

share-le : (x y z cap : ℕ) → x ≤ y + z → x * cap ≤ y * cap + z * cap
share-le x y z cap h = omega (arith, mono-mul x (y + z) cap h)

-- Time brings no more than its share.
worth-later :
    (c : Config) (t u : ℕ) (hash : Option Bucket)
    → t ≤ u
    → worth c u hash ≤ worth c t hash + (u - t) * c.capacity
unfolding refilled
worth-later c t u none h = omega arith
worth-later c t u (some b) h =
    omega (arith, share-le (u - b.last_refill) (t - b.last_refill) (u - t) c.capacity (omega arith))

-- The script takes what it lets through.
worth-script :
    (c : Config) (now : ℕ) (hash : Option Bucket)
    → worth c now (some (script c now hash).bucket) + parts c (script c now hash).allowed
      ≤ worth c now hash
unfolding script
worth-script c now hash =
    let tokens : ℕ = worth c now hash in
    let b : Bucket = (take_token c now tokens).bucket in
    let at : b.last_refill ≡ now = last_refill-take_token c now tokens in
    let none_since : (now - b.last_refill) * c.capacity ≡ 0 * c.capacity =
      ap (λ (x : ℕ). x * c.capacity) (rw at (omega arith)) in
    omega (arith, none_since, (refilled-le c now b).0, take_token_balance c now tokens)

module _ (r : Redis) where
  open r use {Store, hash}

  -- How many requests at the given times are let through.
  abbrev pub granted : Config → Store → List ℕ → ℕ
  granted c s [] = 0
  granted c s (t ∷ times) = let_by (allow r c t s).0 + granted c (allow r c t s).1 times

  module _ (c : Config) (room : 0 < c.capacity) (positive : 0 < c.window) where
    allow-script :
        (now : ℕ) (h : Option Bucket)
        → ((Token.allow c now h).0.allowed ≡ (script c now h).allowed)
          × ((Token.allow c now h).1 ≡ some (script c now h).bucket)
    unfolding Token.allow
    allow-script now h =
        let some_room : (c.capacity == 0) ≡ false = ground arith in
        let some_window : (c.window == 0) ≡ false = ground arith in
        let some_time : (2 * c.window == 0) ≡ false = ground arith in
        rw (some_room, some_window, some_time) (refl, refl)

    worth-answer :
        (now : ℕ) (s : Store) (answer : Result Decision × Store)
        → Answers r c now s answer
        → worth c now (hash answer.1) + c.window * let_by answer.0 ≤ worth c now (hash s)
    worth-answer now s (ok d, after) (decided, kept) =
        let (same, bucket) = allow-script now (hash s) in
        rw (decided, kept, same, bucket)
          (omega (arith, worth-script c now (hash s), parts-eq c (script c now (hash s)).allowed))
    worth-answer now s (err e, after) (inl before) = rw before (omega arith)
    worth-answer now s (err e, after) (inr ran) =
        rw (ran, (allow-script now (hash s)).1) (omega (arith, worth-script c now (hash s)))

    pub granted-worth :
        (t : ℕ) (s : Store) (times : List ℕ)
        → Follows t times
        → c.window * granted c s times ≤ worth c t (hash s) + (last t times - t) * c.capacity
    granted-worth t s [] f = omega arith
    granted-worth t s (u ∷ times) (h, f) = omega (
      arith,
      granted-worth u (allow r c u s).1 times f,
      worth-answer u s (allow r c u s) (allow-Answers r c u s),
      worth-later c t u (hash s) h,
      split_refill t u (last u times) c.capacity h (le-last u times f),
    )

    -- From any moment before the first request on.
    pub granted-since :
        (s : Store) (start : ℕ) (times : List ℕ)
        → Follows start times
        → c.window * granted c s times ≤ full c + (last start times - start) * c.capacity
    granted-since s start times f =
        omega
          (arith, granted-worth start s times f, (refilled-le c start (stored c start (hash s))).1)

    -- Redis may fail at any call, before or after the script has run: of the requests at times that
    -- do not go back, a token bucket with room and a window that is not zero lets through at most its
    -- capacity, and the capacity once more for each window that passes between the first and the
    -- last of them. Both sides are in parts of a token.
    pub granted-le :
        (s : Store) (t : ℕ) (times : List ℕ)
        → Follows t times
        → c.window * granted c s (t ∷ times) ≤ full c + (last t times - t) * c.capacity
    granted-le s t times f = granted-since s t (t ∷ times) (omega arith, f)
