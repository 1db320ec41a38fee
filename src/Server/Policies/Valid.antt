-- ===== src/Server/Policies/Valid.antt =====
-- What a policy that was accepted looks like, and which limiter it leads to.
use rate_x_rate_limiter_web.Base.{◌<◌, ◌≡◌, true, false, ◌⊎◌, ◌↔◌, List, ok, is_err, arith}
use rate_x_rate_limiter_web.Model.{PolicyDraft, RouteDraft}
use rate_x_rate_limiter_web.App.{empty_policy}
use rate_x_rate_limiter_web.Panels.Policies.{FormEdit}
use rate_x_rate_limiter_web.Panels.Policies.Form.{edited, form-burst_capacity}
use rate_x_rate_limiter_web.Server.Policies.{
  algorithm_of, is_supported, validate_policy, validate_route, token, new_limiter,
}

-- What the table of policies demands of a row.
pub record IsStorable (d : PolicyDraft) : Type 0 where
  pub algorithm : is_supported d.algorithm ≡ true
  pub request_limit : 0 < d.request_limit
  pub window_seconds : 0 < d.window_seconds
  pub burst_capacity : 0 < d.burst_capacity

-- A policy that is accepted meets the checks of the table, with its name, limit and window as they
-- were sent, and its burst capacity too, if that is not 0.
pub validate_policy-IsStorable :
    (d e : PolicyDraft)
    → validate_policy d ≡ ok e
    → IsStorable e
      × (e.name ≡ d.name)
      × (e.request_limit ≡ d.request_limit)
      × (e.window_seconds ≡ d.window_seconds)
      × ((d.burst_capacity ≡ 0) ⊎ (e.burst_capacity ≡ d.burst_capacity))
unfolding validate_policy
validate_policy-IsStorable d e h = ground arith

-- A policy is refused exactly if its algorithm, trimmed and in lower case, is unknown, or if its
-- limit or its window is not positive.
pub validate_policy-refuses_iff :
    (d : PolicyDraft)
    → (is_err (validate_policy d) ≡ true) ↔ (
        (is_supported (algorithm_of d.algorithm) ≡ false)
        ⊎ ((d.request_limit ≡ 0) ⊎ (d.window_seconds ≡ 0)))
unfolding validate_policy
validate_policy-refuses_iff d = ground arith

-- A route policy that is accepted is enabled, also where it was sent disabled.
pub validate_route-enabled : (d e : RouteDraft) → validate_route d ≡ ok e → e.enabled ≡ true
unfolding validate_route
validate_route-enabled d e h = ground arith

burst_capacity-accepted :
    (d e : PolicyDraft) → validate_policy d ≡ ok e → d.burst_capacity ≡ 100 → e.burst_capacity ≡ 100
burst_capacity-accepted d e h b =
    let facts = validate_policy-IsStorable d e h in ground (arith, facts)

-- A token bucket policy that is made with the dashboard's form and accepted has a limiter of 100
-- tokens, whatever the user entered as requests per window.
pub form-token_capacity :
    (es : List FormEdit) (d : PolicyDraft)
    → validate_policy (edited empty_policy es) ≡ ok d
    → d.algorithm ≡ "token_bucket"
    → new_limiter false d ≡ token 100 d.window_seconds
unfolding new_limiter
form-token_capacity es d h a =
    rw (a, burst_capacity-accepted (edited empty_policy es) d h (form-burst_capacity es))
