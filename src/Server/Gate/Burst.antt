-- ===== src/Server/Gate/Burst.antt =====
-- A burst of requests of one client through the rate limit middleware, with the token bucket.
use rate_x_rate_limiter_web.Base.{
  ℕ, zero, suc, ◌*◌, ◌/◌, ◌<◌, ◌≡◌, refl, ◌∙◌, String, false, Option, some, List, Result, ok,
  length, All, arith, min, ◌==◌,
}
use rate_x_rate_limiter_web.Model.{Policy, ApiKey}
use rate_x_rate_limiter_web.Limiter.{Decision}
use rate_x_rate_limiter_web.Limiter.Token.{
  Config, Bucket, refilled, stored, script, rate_config, kept,
}
use rate_x_rate_limiter_web.Limiter.Token as Token
use rate_x_rate_limiter_web.Limiter.Token.Bounds.{allowed_count}
use rate_x_rate_limiter_web.Limiter.Token.Burst.{at_once, allowed_count-at_once}
use rate_x_rate_limiter_web.Server.Gate.{Request, World, serve}
use rate_x_rate_limiter_web.Server.Gate.Client.{passes, allowed_calls, ComesFrom, passes-serve}

-- The token bucket of the client at a moment, as the middleware calls it.
abbrev pub token_at :
    Config → ℕ → Option Policy → String → Option Bucket → Result Decision × Option Bucket
token_at c now p key hash = (ok (Token.allow c now hash).0, (Token.allow c now hash).1)

module _ (c : Config) (now : ℕ) (room : 0 < c.capacity) (positive : 0 < c.window) where
  token_at-script :
      (hash : Option Bucket)
      → ((Token.allow c now hash).0.allowed ≡ (script c now hash).allowed)
        × ((Token.allow c now hash).1 ≡ some (script c now hash).bucket)
  unfolding Token.allow
  token_at-script hash =
      let some_room : (c.capacity == 0) ≡ false = ground arith in
      let some_window : (c.window == 0) ≡ false = ground arith in
      let some_time : (2 * c.window == 0) ≡ false = ground arith in
      rw (some_room, some_window, some_time) (refl, refl)

  allowed_calls-token_at :
      (p : Option Policy) (key : String) (n : ℕ) (hash : Option Bucket)
      → (find_key : String → Result (ApiKey × Policy))
      → (find_policy : String → String → Result (Option Policy)) → (next_status : Request → ℕ)
      → allowed_calls find_key find_policy (token_at c now) next_status p key n hash
        ≡ allowed_count c hash (at_once n now)
  allowed_calls-token_at p key zero hash find_key find_policy next_status = refl
  allowed_calls-token_at p key (suc n) hash find_key find_policy next_status =
      let (allowed, bucket) = token_at-script hash in
      rw
        (
          allowed,
          bucket,
          allowed_calls-token_at p key n (some (script c now hash).bucket) find_key find_policy
              next_status,
        )
        refl

  -- Of requests of one client to one route in one millisecond, with a token bucket that has room and
  -- a window that is not zero, the middleware that is closed on failures lets exactly as many past
  -- as the bucket has whole tokens after its refill, or all, if they are fewer; whatever key, policy
  -- and counters there are.
  pub passes-token_at :
      (find_key : String → Result (ApiKey × Policy))
      → (find_policy : String → String → Result (Option Policy))
      → (next_status : Request → ℕ) (p : Option Policy) (key : String)
      → (w : World (Option Bucket)) (rs : List Request)
      → All (ComesFrom find_key find_policy (token_at c now) next_status p key) rs
      → passes (serve find_key find_policy (token_at c now) false next_status w rs).0
        ≡ min (length rs) (refilled c now (stored c now w.limiters) / c.window)
  passes-token_at find_key find_policy next_status p key w rs from =
      passes-serve find_key find_policy (token_at c now) next_status p key w rs from
      ∙ (allowed_calls-token_at p key (length rs) w.limiters find_key find_policy next_status
          ∙ allowed_count-at_once c now positive w.limiters (length rs))
