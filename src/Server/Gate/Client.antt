-- ===== src/Server/Gate/Client.antt =====
-- The rate limit middleware for the requests of one client to one route: it lets through what the
-- limiter lets through.
use rate_x_rate_limiter_web.Base.{
  ℕ, zero, suc, ◌+◌, ◌≡◌, refl, String, false, Option, List, [], ◌∷◌, Result, ok, err, length, All,
  arith, if◌then◌else◌,
}
use rate_x_rate_limiter_web.Model.{Policy, ApiKey}
use rate_x_rate_limiter_web.Limiter.{Decision}
use rate_x_rate_limiter_web.Limiter.Replies.{let_by}
use rate_x_rate_limiter_web.Server.Gate.{
  Request, Identity, identify, Answer, World, Totals, gate, serve, identified, limited, decided,
  policy_for, limiter_key,
}

abbrev pub passes : List Answer → ℕ
passes [] = 0
passes (a ∷ answers) = (if a.passed then 1 else 0) + passes answers

module _ (find_key : String → Result (ApiKey × Policy))
    (find_policy : String → String → Result (Option Policy)) {S : Type 0}
    (allow : Option Policy → String → S → Result Decision × S) (next_status : Request → ℕ)
    (p : Option Policy) (key : String) where
  -- The request comes from the client, under the policy.
  abbrev pub ComesFrom : Request → Type 0
  ComesFrom r =
      (i : Identity) × ((identify find_key r ≡ ok i)
        × ((policy_for find_policy r i ≡ p) × (limiter_key r i ≡ key)))

  -- How many of so many calls of the limiter are allowed.
  abbrev pub allowed_calls : ℕ → S → ℕ
  allowed_calls zero s = 0
  allowed_calls (suc n) s = let_by (allow p key s).0 + allowed_calls n (allow p key s).1

  passed-limited :
      (r : Request) (i : Identity) (d : Result Decision) (t : Totals)
      → (if (limited find_key find_policy allow false next_status r i d t).0.passed then 1 else 0)
        ≡ let_by d
  unfolding limited decided
  passed-limited r i (ok d) t = ground arith
  passed-limited r i (err e) t = refl

  passed-gate :
      (r : Request) (w : World S)
      → ComesFrom r
      → ((if (gate find_key find_policy allow false next_status r w).0.passed then 1 else 0)
          ≡ let_by (allow p key w.limiters).0)
        × ((gate find_key find_policy allow false next_status r w).1.limiters
            ≡ (allow p key w.limiters).1)
  unfolding gate identified
  passed-gate r w (i, (known, (policy, same))) =
      rw (known, policy, same) (passed-limited r i (allow p key w.limiters).0 _, refl)

  pub passes-serve :
      (w : World S) (rs : List Request)
      → All ComesFrom rs
      → passes (serve find_key find_policy allow false next_status w rs).0
        ≡ allowed_calls (length rs) w.limiters
  passes-serve w [] h = refl
  passes-serve w (r ∷ rs) (h, hs) =
      let (now, then_on) = passed-gate r w h in
      rw
        (now, passes-serve (gate find_key find_policy allow false next_status r w).1 rs hs, then_on)
        refl
