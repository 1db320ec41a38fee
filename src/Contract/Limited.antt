-- ===== src/Contract/Limited.antt =====
-- The demo request of the playground, limited by internal/middleware/rate_limit.go: what
-- `sendDemoRequest` of frontend/src/api.js makes of the answer.
use rate_x_rate_limiter_web.Base.{
  ℕ, ◌≡◌, String, Bool, Option, none, some, List, [], ◌∷◌, Result, ok, All, str_eq, if◌then◌else◌,
  Bool-cases, inl, inr,
}
use rate_x_rate_limiter_web.Text.{append, show}
use rate_x_rate_limiter_web.Model.{Policy, ApiKey}
use rate_x_rate_limiter_web.Limiter.{Decision}
use rate_x_rate_limiter_web.Api.{Json, Response}
use rate_x_rate_limiter_web.Api.Demo.{DemoResult, demo_result}
use rate_x_rate_limiter_web.Server.Cors.{cors}
use rate_x_rate_limiter_web.Server.Gate.{
  Request, Identity, identify, route_of, Answer, World, gate, identified, limited, decided,
  rate_headers,
}
use rate_x_rate_limiter_web.Server.Gate.Passing.{
  foremost, or_none, policy_for-foremost, limiter_key-append,
}
use rate_x_rate_limiter_web.Contract.Cross.{seen}

-- The value of a header that was set.
abbrev pub value_of : String → List (String × String) → Option String
value_of name [] = none
value_of name ((n, v) ∷ headers) = if str_eq n name then some v else value_of name headers

-- The response has the status of the middleware's answer, and of the headers that the client reads
-- those that the middleware has set.
abbrev pub Carries : Response → Answer → Type 0
Carries r a =
    (r.status ≡ a.status)
    × All (λ name. r.header name ≡ value_of name a.headers)
        ("X-RateLimit-Limit" ∷ "X-RateLimit-Remaining" ∷ "Retry-After" ∷ [])

-- The result shows the limiter's decision: its limit and what remains, and the seconds to wait
-- exactly where it rejects, with the status 429.
abbrev pub Shows : ℕ → Decision → DemoResult → Type 0
Shows status d result =
    (result.limit ≡ some (show d.limit))
    × (result.remaining ≡ some (show d.remaining))
    × (result.retry_after ≡ (if d.allowed then none else some (show d.retry_after)))
    × (result.status ≡ (if d.allowed then status else 429))

-- The answer to a request that the limiter decided on.
abbrev told : ℕ → Decision → Answer
told status d = record {
  passed = d.allowed;
  status = if d.allowed then status else 429;
  headers = rate_headers d;
}

told-Shows :
    (frontend : String) (parse : String → Result Json) (size : Json → ℕ) (duration status : ℕ)
    (d : Decision) (r : Response)
    → Carries r (told status d)
    → Shows status d (demo_result parse size duration (seen (cors frontend) r))
unfolding demo_result cors rate_headers
told-Shows frontend parse size duration status d r (code, (limit, (remaining, (wait, _)))) =
    elim (Bool-cases d.allowed) [
      | inl allowed ↦ (limit, remaining, rw allowed (rw allowed at wait), code)
      | inr rejected ↦ (limit, remaining, rw rejected (rw rejected at wait), code)
    ]

module _ (find_key : String → Result (ApiKey × Policy))
    (find_policy : String → String → Result (Option Policy)) {S : Type 0}
    (allow : Option Policy → String → S → Result Decision × S) (fail_open : Bool)
    (next_status : Request → ℕ) where
  -- What the limiter answers for a request: it is asked for the policy of the route or else that of
  -- the sender, under the sender, ":" and the route.
  abbrev pub answer_of : Request → Identity → World S → Result Decision
  answer_of req i w =
      (allow (foremost (or_none (find_policy req.method (route_of req)) ∷ i.policy ∷ []))
        (append i.identity (append ":" (route_of req))) w.limiters).0

  gate-told :
      (req : Request) (w : World S) (i : Identity) (d : Decision)
      → identify find_key req ≡ ok i
      → answer_of req i w ≡ ok d
      → (gate find_key find_policy allow fail_open next_status req w).0 ≡ told (next_status req) d
  unfolding gate identified limited decided
  gate-told req w i d known e =
      let of_request = policy_for-foremost find_policy req i in
      let key = limiter_key-append req i in
      rw (known, of_request, key, e)
        (elim (Bool-cases d.allowed) [ inl allowed ↦ rw allowed | inr rejected ↦ rw rejected ])

  -- A request of the playground whose sender is known, and which the limiter decides on: the result
  -- that the dashboard shows has the limit and the remaining requests of the decision, and, where the
  -- decision is to reject, the status 429 and the seconds to wait; where it is to allow, the status of
  -- the rest of the chain and no seconds to wait. The limiter is asked for the policy of the route or
  -- else that of the sender, under the sender, ":" and the route. The response has the middleware's
  -- status and, of the three headers that are read, those that the middleware sets; the dashboard sees
  -- what CORS exposes.
  pub gate-Shows :
      (req : Request) (w : World S) (i : Identity) (d : Decision) (r : Response) (frontend : String)
      (parse : String → Result Json) (size : Json → ℕ) (duration : ℕ)
      → identify find_key req ≡ ok i
      → answer_of req i w ≡ ok d
      → Carries r (gate find_key find_policy allow fail_open next_status req w).0
      → Shows (next_status req) d (demo_result parse size duration (seen (cors frontend) r))
  gate-Shows req w i d r frontend parse size duration known e carried =
      told-Shows frontend parse size duration (next_status req) d r
        (rw (gate-told req w i d known e) at carried)
