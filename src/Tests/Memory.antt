-- ===== src/Tests/Memory.antt =====
-- The token bucket in memory.
use rate_x_rate_limiter_web.Base.{◌+◌, ◌*◌, ◌≡◌, refl, false, Option, some, arith}
use rate_x_rate_limiter_web.Limiter.Token.{Config, Bucket}
use rate_x_rate_limiter_web.Limiter.Memory.{reply, take_one, topped_up}
use rate_x_rate_limiter_web.Limiter.Memory.Retry.{retry_after_short}

-- Two tokens in seven seconds, with a thousand units in a second.
abbrev slow : Config
slow = record { capacity = 2; window = 7000 }

abbrev empty : Option Bucket
empty = some (record { tokens = 0; last_refill = 5 })

rejected_test : (reply 1000 slow 5 empty).allowed ≡ false
unfolding reply take_one topped_up
rejected_test = refl

retry_after_short_example :
    (reply 1000 slow
      (5 + 1000 * (reply 1000 slow 5 empty).retry_after)
      (some (reply 1000 slow 5 empty).bucket)).allowed
    ≡ false
unfolding topped_up
retry_after_short_example =
    retry_after_short 1000 slow 5 empty (omega arith) rejected_test (omega arith)
      (λ e. omega (arith, e))
