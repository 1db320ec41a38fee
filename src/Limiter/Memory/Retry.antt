-- ===== src/Limiter/Memory/Retry.antt =====
-- The seconds to wait that the bucket in memory tells.
use rate_x_rate_limiter_web.Base.{
  ℕ, ◌+◌, ◌-◌, ◌*◌, ◌/◌, ◌%◌, ◌≤◌, ◌<◌, ◌≡◌, ◌≢◌, false, Option, some, arith, max,
}
use rate_x_rate_limiter_web.Limiter.Token.{Config, Bucket}
use rate_x_rate_limiter_web.Limiter.Memory.{take_one, topped_up, bucket_at, reply}

-- The parts of a token that are missing at a moment.
abbrev pub missing : Config → ℕ → Option Bucket → ℕ
missing c now b = c.window - topped_up c now (bucket_at c now b)

take_one-rejected :
    (second : ℕ) (c : Config) (now tokens : ℕ)
    → (take_one second c now tokens).allowed ≡ false
    → (tokens < c.window)
      × ((take_one second c now tokens).bucket ≡ record { tokens = tokens; last_refill = now })
      × ((take_one second c now tokens).retry_after
          ≡ max 1 ((c.window - tokens) / (c.capacity * second)))
unfolding take_one
take_one-rejected second c now tokens h = ground arith

take_one-few :
    (second : ℕ) (c : Config) (now tokens : ℕ)
    → tokens < c.window
    → (take_one second c now tokens).allowed ≡ false
unfolding take_one
take_one-few second c now tokens h = ground arith

regroup : (wait second cap : ℕ) → wait * (cap * second) ≡ second * wait * cap
regroup wait second cap = omega arith

topped_up-few :
    (second : ℕ) (c : Config) (now tokens wait : ℕ)
    → tokens + wait * (c.capacity * second) < c.window
    → topped_up c (now + second * wait) (record { tokens = tokens; last_refill = now }) < c.window
unfolding topped_up
topped_up-few second c now tokens wait h =
    let e : now + second * wait - now ≡ second * wait = omega arith in
    rw e (omega (arith, h, regroup wait second c.capacity))

-- Rounded down, with a rest.
floor-less : (a b : ℕ) → b ≤ a → a % b ≢ 0 → 0 < b → max 1 (a / b) * b < a
floor-less a b h k p = grind arith

-- A client that is rejected, lacks what more than a second brings, and that not in whole seconds, is
-- told too short a wait: if it comes back after the seconds that it was told, with no other request
-- in between, it is rejected again.
pub retry_after_short :
    (second : ℕ) (c : Config) (now : ℕ) (b : Option Bucket)
    → 0 < c.capacity * second
    → (reply second c now b).allowed ≡ false
    → c.capacity * second ≤ missing c now b
    → missing c now b % (c.capacity * second) ≢ 0
    → (reply second c
        (now + second * (reply second c now b).retry_after)
        (some (reply second c now b).bucket)).allowed
      ≡ false
unfolding reply
retry_after_short second c now b p k h rest =
    let tokens : ℕ = topped_up c now (bucket_at c now b) in
    let (few, bucket, wait) = take_one-rejected second c now tokens k in
    rw (bucket, wait)
      (take_one-few second c _ _ (
        topped_up-few second c now tokens _
          (omega (arith, few, floor-less (c.window - tokens) (c.capacity * second) h rest p))))
