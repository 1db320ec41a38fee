-- ===== src/Server/Limits/Interleaved.antt =====
-- The requests of one client among those of others.
use rate_x_rate_limiter_web.Base.{
  ℕ, ◌+◌, ◌≡◌, refl, String, Bool, true, false, Option, List, [], ◌∷◌, Result, ok, err, str_eq,
  eq_refl, eq_iff, if◌then◌else◌, Bool-cases, inl, inr, All, ap,
}
use rate_x_rate_limiter_web.Model.{Policy, ApiKey}
use rate_x_rate_limiter_web.Limiter.{Decision}
use rate_x_rate_limiter_web.Limiter.Replies.{let_by}
use rate_x_rate_limiter_web.Server.Gate.{
  Request, Identity, identify, Answer, World, gate, policy_for, limiter_key,
}
use rate_x_rate_limiter_web.Server.Limits.{keyed}
use rate_x_rate_limiter_web.Server.Store.Distinct.{str_eq_sym}
use rate_x_rate_limiter_web.Server.Gate.Passing.{Ends, gate-Ends, lets_through}

-- Limiters that keep something for each key.
module _ {T : Type 0} (single : ℕ → Option Policy → String → T → Result Decision × T) where
  -- How many of the calls for a key at the given times let a request through.
  abbrev pub granted : Option Policy → String → T → List ℕ → ℕ
  granted p key s [] = 0
  granted p key s (t ∷ times) =
      let_by (single t p key s).0 + granted p key (single t p key s).1 times

  module _ (find_key : ℕ → String → Result (ApiKey × Policy))
      (find_policy : String → String → Result (Option Policy)) (next_status : Request → ℕ)
      (key : String) (p : Option Policy) where
    -- One request at a moment, with limiters that are closed when they fail.
    abbrev pub visit : World (String → T) → ℕ × Request → Answer × World (String → T)
    visit w (now, r) = gate (find_key now) find_policy (keyed single now) false next_status r w

    abbrev of_client : Request → Result Identity → Bool
    of_client r (err e) = false
    of_client r (ok i) = str_eq (limiter_key r i) key

    -- The limiter counts the request under the key.
    abbrev pub is_of : ℕ × Request → Bool
    is_of (now, r) = of_client r (identify (find_key now) r)

    -- The moments of the client's requests, and how many of them get past the middleware.
    abbrev pub moments : List (ℕ × Request) → List ℕ
    moments [] = []
    moments (v ∷ visits) = let rest = moments visits in if is_of v then v.0 ∷ rest else rest

    abbrev pub passes_of : World (String → T) → List (ℕ × Request) → ℕ
    passes_of w [] = 0
    passes_of w (v ∷ visits) =
        let rest = passes_of (visit w v).1 visits in
        if is_of v then (if (visit w v).0.passed then 1 else 0) + rest else rest

    abbrev Under : Request → Result Identity → Type 0
    Under r (err e) = Unit
    Under r (ok i) = str_eq (limiter_key r i) key ≡ true → policy_for find_policy r i ≡ p

    -- A request of the client is under the policy.
    abbrev pub IsUnder : ℕ × Request → Type 0
    IsUnder (now, r) = Under r (identify (find_key now) r)

    let_by-lets : (d : Result Decision) → (if lets_through false d then 1 else 0) ≡ let_by d
    let_by-lets (ok d) = refl
    let_by-lets (err e) = refl

    -- What a request's end means for the client.
    abbrev EndsAt :
        ℕ × Request → World (String → T) → Answer × World (String → T) → Result Identity → Type 0
    EndsAt (now, r) w q i =
        Ends (find_key now) find_policy (keyed single now) false next_status r w q i

    other-end :
        (v : ℕ × Request) (w : World (String → T)) (q : Answer × World (String → T))
        → (i : Result Identity) → EndsAt v w q i
        → of_client v.1 i ≡ false
        → q.1.limiters key ≡ w.limiters key
    other-end v w q (err e) (p', s', same) h = ap (λ m. m key) same
    other-end (now, r) w q (ok i) (p', s', same) h =
        rw (same, str_eq_sym key (limiter_key r i), h) refl

    own-end :
        (v : ℕ × Request) (w : World (String → T)) (q : Answer × World (String → T))
        → (i : Result Identity) → EndsAt v w q i
        → of_client v.1 i ≡ true
        → Under v.1 i
        → ((if q.0.passed then 1 else 0) ≡ let_by (single v.0 p key (w.limiters key)).0)
          × (q.1.limiters key ≡ (single v.0 p key (w.limiters key)).1)
    own-end v w q (err e) ends h u = absurd (cc)
    own-end (now, r) w q (ok i) (passes, s', same) h u =
        let is_key : limiter_key r i ≡ key = (eq_iff (limiter_key r i) key).0 h in
        rw (passes, same, u h, is_key, eq_refl key)
          (let_by-lets (single now p key (w.limiters key)).0, refl)

    visit-other :
        (w : World (String → T)) (v : ℕ × Request)
        → is_of v ≡ false
        → (visit w v).1.limiters key ≡ w.limiters key
    visit-other w (now, r) h =
        other-end (now, r) w (visit w (now, r)) (identify (find_key now) r)
          (gate-Ends (find_key now) find_policy (keyed single now) false next_status r w) h

    visit-own :
        (w : World (String → T)) (v : ℕ × Request)
        → is_of v ≡ true
        → IsUnder v
        → ((if (visit w v).0.passed then 1 else 0) ≡ let_by (single v.0 p key (w.limiters key)).0)
          × ((visit w v).1.limiters key ≡ (single v.0 p key (w.limiters key)).1)
    visit-own w (now, r) h u =
        own-end (now, r) w (visit w (now, r)) (identify (find_key now) r)
          (gate-Ends (find_key now) find_policy (keyed single now) false next_status r w) h u

    -- Among the requests of other clients, under whatever policies, in whatever order, as many
    -- requests of a client get past as its limiter lets through of its calls alone.
    pub passes_of-granted :
        (w : World (String → T)) (visits : List (ℕ × Request))
        → All IsUnder visits
        → passes_of w visits ≡ granted p key (w.limiters key) (moments visits)
    passes_of-granted w [] all = refl
    passes_of-granted w (v ∷ visits) (u, all) = elim (Bool-cases (is_of v)) [
      | inl own ↦
          let (first, left) = visit-own w v own u in
          rw (own, first, passes_of-granted (visit w v).1 visits all, left) refl
      | inr other ↦
          rw (other, passes_of-granted (visit w v).1 visits all, visit-other w v other) refl
    ]
