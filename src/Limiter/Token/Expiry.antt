-- ===== src/Limiter/Token/Expiry.antt =====
-- The time to live of the hash of a token bucket is long enough.
use rate_x_rate_limiter_web.Base.{ℕ, ◌+◌, ◌-◌, ◌*◌, ◌≤◌, ◌≡◌, none, some, arith, ap, sym, ◌∙◌}
use rate_x_rate_limiter_web.Limiter.Token.{
  Config, Bucket, full, stored, refilled, take_token, script,
}

mul_mono : (w e cap : ℕ) → w ≤ e → cap * w ≤ e * cap
mul_mono w e cap h = grind arith

refilled-full :
    (c : Config) (now : ℕ) (b : Bucket) → b.last_refill + c.window ≤ now → refilled c now b ≡ full c
unfolding refilled
refilled-full c now b h =
    omega (arith, mul_mono c.window (now - b.last_refill) c.capacity (omega arith))

refilled-missing : (c : Config) (now : ℕ) → refilled c now (stored c now none) ≡ full c
unfolding refilled
refilled-missing c now = omega arith

-- A hash whose last refill is two windows ago or longer answers as a missing one: since the hash lives
-- for two windows, its expiry is never seen.
pub script-expired :
    (c : Config) (now : ℕ) (b : Bucket)
    → b.last_refill + 2 * c.window ≤ now
    → script c now (some b) ≡ script c now none
unfolding script
script-expired c now b h =
    ap (take_token c now) (refilled-full c now b (omega arith) ∙ sym (refilled-missing c now))
