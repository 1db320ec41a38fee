-- ===== src/Server/Factory/Default.antt =====
-- Which limiter the rate limit middleware asks: `Default` of internal/middleware/rate_limit.go for a
-- request that has no policy, `FromPolicy` for any other. A number of the configuration that is negative
-- is 0 here.
use rate_x_rate_limiter_web.Base.{
  ℕ, zero, suc, ◌≡◌, ◌≢◌, refl, Bool, true, false, ◌||◌, ◌==◌, Option, none, some, List, All,
  String, str_eq, eq_iff, Bool-cases, inl, inr, if◌then◌else◌, arith,
}
use rate_x_rate_limiter_web.Text.Numbers.{to_nat}
use rate_x_rate_limiter_web.Model.{Policy, PolicyDraft}
use rate_x_rate_limiter_web.Server.Config.{Config}
use rate_x_rate_limiter_web.Server.Policies.{Limiter, new_limiter}
use rate_x_rate_limiter_web.Server.Factory.{Object, Factory, empty, from_policy, after}
use rate_x_rate_limiter_web.Server.Factory.Sequential.{Plain, from_policy-new_limiter}
use rate_x_rate_limiter_web.Server.Store.Sound.{draft_of}

-- The policy of `Default`.
unfoldable pub default_policy : Config → PolicyDraft
default_policy cfg = record {
  name = "";
  algorithm = cfg.default_algorithm;
  request_limit = to_nat cfg.default_limit;
  window_seconds = to_nat cfg.window_seconds;
  burst_capacity = to_nat cfg.default_burst_capacity;
}

abbrev pub in_memory : Config → Bool → Bool
in_memory cfg no_redis = str_eq cfg.rate_limit_backend "memory" || no_redis

-- `RateLimitFailureMode == "open"`
abbrev pub fail_open : Config → Bool
fail_open cfg = str_eq cfg.rate_limit_failure_mode "open"

abbrev pub policy_or_default : Config → Option Policy → PolicyDraft
policy_or_default cfg none = default_policy cfg
policy_or_default cfg (some p) = draft_of p

-- The limiter that is asked, with the limiters that were made before.
unfoldable pub limiter_of : Config → Bool → Factory → Option Policy → Object
limiter_of cfg no_redis f p =
    (from_policy (in_memory cfg no_redis) cfg.rate_limit_backend (policy_or_default cfg p) f).0

-- The burst capacity, or the limit of requests where it is 0.
abbrev pub IsCapacity : ℕ → ℕ → ℕ → Type 0
IsCapacity limit zero c = c ≡ limit
IsCapacity limit (suc burst) c = c ≡ suc burst

-- The limiter is the one for an algorithm, a limit of requests, a burst capacity and a window, in
-- memory or over Redis.
abbrev pub IsFor : Bool → String → ℕ → ℕ → ℕ → Limiter → Type 0
IsFor memory algorithm limit burst window (Limiter.memory c w) =
    (memory ≡ true) × IsCapacity limit burst c × (w ≡ window)
IsFor memory algorithm limit burst window (Limiter.fixed n w) =
    (memory ≡ false) × (algorithm ≡ "fixed_window") × (n ≡ limit) × (w ≡ window)
IsFor memory algorithm limit burst window (Limiter.sliding n w) =
    (memory ≡ false) × (algorithm ≡ "sliding_window") × (n ≡ limit) × (w ≡ window)
IsFor memory algorithm limit burst window (Limiter.token c w) =
    (memory ≡ false)
    × (algorithm ≢ "fixed_window")
    × (algorithm ≢ "sliding_window")
    × IsCapacity limit burst c
    × (w ≡ window)

-- The limiter is the one for a request with the policy, or with none.
abbrev pub IsAsked : Config → Bool → Option Policy → Limiter → Type 0
IsAsked cfg no_redis none l =
    IsFor (str_eq cfg.rate_limit_backend "memory" || no_redis) cfg.default_algorithm
      (to_nat cfg.default_limit) (to_nat cfg.default_burst_capacity) (to_nat cfg.window_seconds) l
IsAsked cfg no_redis (some p) l =
    IsFor (str_eq cfg.rate_limit_backend "memory" || no_redis) p.algorithm p.request_limit
      p.burst_capacity p.window_seconds l

positive_or-IsCapacity :
    (limit burst : ℕ) → IsCapacity limit burst (if burst == 0 then limit else burst)
positive_or-IsCapacity limit zero = refl
positive_or-IsCapacity limit (suc burst) = ground arith

new_limiter-IsFor :
    (memory : Bool) (d : PolicyDraft)
    → IsFor memory d.algorithm d.request_limit d.burst_capacity d.window_seconds
        (new_limiter memory d)
unfolding new_limiter
new_limiter-IsFor true d = (refl, positive_or-IsCapacity d.request_limit d.burst_capacity, refl)
new_limiter-IsFor false d = elim (Bool-cases (str_eq d.algorithm "fixed_window")) [
  | inl fixed ↦ rw fixed (refl, (eq_iff d.algorithm "fixed_window").0 fixed, refl, refl)
  | inr other ↦ elim (Bool-cases (str_eq d.algorithm "sliding_window")) [
    | inl sliding ↦
        rw (other, sliding) (refl, (eq_iff d.algorithm "sliding_window").0 sliding, refl, refl)
    | inr neither ↦
        rw (other, neither)
          (
            refl,
            λ same. cc ((eq_iff d.algorithm "fixed_window").1 same, other),
            λ same. cc ((eq_iff d.algorithm "sliding_window").1 same, neither),
            positive_or-IsCapacity d.request_limit d.burst_capacity,
            refl,
          )
  ]
]

policy_or_default-IsAsked :
    (cfg : Config) (no_redis : Bool) (p : Option Policy)
    → IsAsked cfg no_redis p (new_limiter (in_memory cfg no_redis) (policy_or_default cfg p))
unfolding default_policy
policy_or_default-IsAsked cfg no_redis none =
    new_limiter-IsFor (in_memory cfg no_redis) (default_policy cfg)
policy_or_default-IsAsked cfg no_redis (some p) =
    new_limiter-IsFor (in_memory cfg no_redis) (draft_of p)

-- Whatever limiters were asked for before, the one that is asked is in memory exactly if the backend
-- is "memory" or there is no Redis, and a fixed window, a sliding window or else a token bucket over
-- Redis by the algorithm if not; the windows have the limit, the buckets the burst capacity or, where
-- it is 0, the limit, and all have the window, each of the request's policy or, where it has none, of
-- the configuration's defaults. No algorithm may have a colon in its name.
pub limiter_of-IsAsked :
    (cfg : Config) (no_redis : Bool) (before : List PolicyDraft) (p : Option Policy)
    → All Plain before
    → Plain (policy_or_default cfg p)
    → IsAsked cfg no_redis p
        (limiter_of cfg no_redis
          (after (in_memory cfg no_redis) cfg.rate_limit_backend before empty)
          p).limiter
unfolding limiter_of
limiter_of-IsAsked cfg no_redis before p all plain =
    let same =
      from_policy-new_limiter (in_memory cfg no_redis) cfg.rate_limit_backend before
        (policy_or_default cfg p) all plain in
    rw same (policy_or_default-IsAsked cfg no_redis p)
