-- ===== src/Limiter/Token/Burst.antt =====
-- Requests that reach a token bucket in the same millisecond.
use rate_x_rate_limiter_web.Base.{
  ℕ, zero, suc, ◌+◌, ◌-◌, ◌/◌, ◌≤◌, ◌<◌, ◌≡◌, min, true, false, Option, some, List, [], ◌∷◌, arith,
  leb, Bool-cases, inl, inr,
}
use rate_x_rate_limiter_web.Limiter.Token.{
  Config, Bucket, full, stored, refilled, take_token, script,
}
use rate_x_rate_limiter_web.Limiter.Token.Bounds.{allowed_count}

-- As many requests, all of one moment.
abbrev pub at_once : ℕ → ℕ → List ℕ
at_once zero now = []
at_once (suc n) now = now ∷ at_once n now

refilled_same :
    (c : Config) (now tokens : ℕ)
    → tokens ≤ full c
    → refilled c now (record { tokens = tokens; last_refill = now }) ≡ tokens
unfolding refilled
refilled_same c now tokens h = let e : now - now ≡ 0 = omega arith in rw e (omega (arith, h))

less_one : (t w : ℕ) → 0 < w → w ≤ t → t / w ≡ (t - w) / w + 1
less_one t w p h = grind arith

none_left : (t w : ℕ) → 0 < w → t < w → t / w ≡ 0
none_left t w p h = grind arith

take_token-enough :
    (c : Config) (now tokens : ℕ)
    → c.window ≤ tokens
    → ((take_token c now tokens).allowed ≡ true)
      × ((take_token c now tokens).bucket
          ≡ record { tokens = tokens - c.window; last_refill = now })
unfolding take_token
take_token-enough c now tokens h = ground arith

take_token-few :
    (c : Config) (now tokens : ℕ)
    → tokens < c.window
    → ((take_token c now tokens).allowed ≡ false)
      × ((take_token c now tokens).bucket ≡ record { tokens = tokens; last_refill = now })
unfolding take_token
take_token-few c now tokens h = ground arith

module _ (c : Config) (now : ℕ) (positive : 0 < c.window) where
  -- From an amount that is not above the capacity.
  burst_from :
      (n tokens : ℕ)
      → tokens ≤ full c
      → allowed_count c (some (record { tokens = tokens; last_refill = now })) (at_once n now)
        ≡ min n (tokens / c.window)
  unfolding script
  burst_from zero tokens h = omega arith
  burst_from (suc n) tokens h = elim (Bool-cases (leb c.window tokens)) [
    | inl enough ↦
        let le : c.window ≤ tokens = ground arith in
        let (a, b) = take_token-enough c now tokens le in
        rw (refilled_same c now tokens h, a, b)
          (omega (
            arith,
            burst_from n (tokens - c.window) (omega arith),
            less_one tokens c.window positive le,
          ))
    | inr few ↦
        let lt : tokens < c.window = ground arith in
        let (a, b) = take_token-few c now tokens lt in
        rw (refilled_same c now tokens h, a, b)
          (omega (arith, burst_from n tokens h, none_left tokens c.window positive lt))
  ]

  refilled-le-full : (b : Bucket) → refilled c now b ≤ full c
  unfolding refilled
  refilled-le-full b = omega arith

  stored_step :
      (hash : Option Bucket)
      → script c now hash
        ≡ script c now
            (some (record { tokens = refilled c now (stored c now hash); last_refill = now }))
  unfolding script
  stored_step hash = rw (
      refilled_same c now (refilled c now (stored c now hash))
        (refilled-le-full (stored c now hash)))

  -- Of any number of requests in one millisecond, a token bucket lets through exactly as many as
  -- there are whole tokens after the refill, or all, if they are fewer, whatever is stored.
  pub allowed_count-at_once :
      (hash : Option Bucket) (n : ℕ)
      → allowed_count c hash (at_once n now) ≡ min n (refilled c now (stored c now hash) / c.window)
  allowed_count-at_once hash zero = omega arith
  allowed_count-at_once hash (suc n) = rw (stored_step hash) (
      burst_from (suc n) (refilled c now (stored c now hash))
        (refilled-le-full (stored c now hash)))
