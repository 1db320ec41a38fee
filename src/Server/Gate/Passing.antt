-- ===== src/Server/Gate/Passing.antt =====
-- Which requests pass the rate limit middleware, and what the others are answered.
use rate_x_rate_limiter_web.Base.{
  ℕ, ◌+◌, ◌≡◌, refl, String, Bool, false, Option, none, some, List, [], ◌∷◌, Result, ok, err, arith,
}
use rate_x_rate_limiter_web.Text.{append, append-empty}
use rate_x_rate_limiter_web.Model.{Policy, ApiKey}
use rate_x_rate_limiter_web.Limiter.{Decision}
use rate_x_rate_limiter_web.Server.Gate.{
  Request, Identity, identify, Totals, Answer, World, gate, identified, limited, decided,
  policy_for, limiter_key, rate_headers, applied, route_of,
}

-- Whether an answer of the limiter lets a request through.
abbrev pub lets_through : Bool → Result Decision → Bool
lets_through fail_open (ok d) = d.allowed
lets_through fail_open (err e) = fail_open

-- The policies that may govern a request, in the order of their precedence: the first one there is.
abbrev pub foremost : List (Option Policy) → Option Policy
foremost [] = none
foremost (some p ∷ rest) = some p
foremost (none ∷ rest) = foremost rest

-- An error is as none.
abbrev pub or_none : Result (Option Policy) → Option Policy
or_none (ok p) = p
or_none (err e) = none

applied-foremost :
    (of_route : Result (Option Policy)) (of_key : Option Policy)
    → applied of_route of_key ≡ foremost (or_none of_route ∷ of_key ∷ [])
applied-foremost (ok (some p)) of_key = refl
applied-foremost (ok none) none = refl
applied-foremost (ok none) (some p) = refl
applied-foremost (err e) none = refl
applied-foremost (err e) (some p) = refl

-- The policy of the route comes before that of the key.
pub policy_for-foremost :
    (find_policy : String → String → Result (Option Policy)) (r : Request) (i : Identity)
    → policy_for find_policy r i
      ≡ foremost (or_none (find_policy r.method (route_of r)) ∷ i.policy ∷ [])
policy_for-foremost find_policy r i = applied-foremost (find_policy r.method (route_of r)) i.policy

-- The key is the sender, ":" and the route.
pub limiter_key-append :
    (r : Request) (i : Identity) → limiter_key r i ≡ append i.identity (append ":" (route_of r))
limiter_key-append r i = rw (append-empty (route_of r))

-- What a request is answered that does not pass: no sender, a limiter that failed, or too many
-- requests, with the seconds to wait in a header.
abbrev pub Refusal : Answer → Result Decision → Type 0
Refusal a (ok d) = (a.status ≡ 429) × (a.headers ≡ rate_headers d)
Refusal a (err e) = (a.status ≡ 503) × (a.headers ≡ [])

module _ (find_key : String → Result (ApiKey × Policy))
    (find_policy : String → String → Result (Option Policy)) {S : Type 0}
    (allow : Option Policy → String → S → Result Decision × S) (fail_open : Bool)
    (next_status : Request → ℕ) where
  -- The limiter's answer for a request whose sender is known, and its state afterwards.
  abbrev pub asked : Request → Identity → World S → Result Decision × S
  asked r i w = allow (policy_for find_policy r i) (limiter_key r i) w.limiters

  abbrev pub Ends : Request → World S → Answer × World S → Result Identity → Type 0
  Ends r w (a, v) (err e) = (a.passed ≡ false) × (a.status ≡ 401) × (v.limiters ≡ w.limiters)
  Ends r w (a, v) (ok i) =
      (a.passed ≡ lets_through fail_open (asked r i w).0)
      × ((a.passed ≡ false) → Refusal a (asked r i w).0)
      × (v.limiters ≡ (asked r i w).1)

  limited-Refusal :
      (r : Request) (i : Identity) (d : Result Decision) (t : Totals)
      → ((limited find_key find_policy allow fail_open next_status r i d t).0.passed
          ≡ lets_through fail_open d)
        × (((limited find_key find_policy allow fail_open next_status r i d t).0.passed ≡ false)
            → Refusal (limited find_key find_policy allow fail_open next_status r i d t).0 d)
  unfolding limited decided
  limited-Refusal r i (ok d) t = grind arith
  limited-Refusal r i (err e) t = grind arith

  identified-Ends :
      (r : Request) (i : Result Identity) (w : World S)
      → Ends r w (identified find_key find_policy allow fail_open next_status r i w) i
  unfolding identified
  identified-Ends r (err e) w = (refl, refl, refl)
  identified-Ends r (ok i) w =
      let (p, f) = limited-Refusal r i (asked r i w).0 w.totals in (p, f, refl)

  -- A request whose sender is not known is answered 401, and no limiter is asked. Any other one asks
  -- the limiter of its policy once, and passes exactly if it is allowed or the limiter fails and the
  -- mode is "open"; if not, it is answered 429 with the limiter's headers, or 503.
  pub gate-Ends :
      (r : Request) (w : World S)
      → Ends r w (gate find_key find_policy allow fail_open next_status r w) (identify find_key r)
  unfolding gate
  gate-Ends r w =
      identified-Ends r (identify find_key r)
        (record w { totals = record (w.totals) { requests = w.totals.requests + 1 } })
