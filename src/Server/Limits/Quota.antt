-- ===== src/Server/Limits/Quota.antt =====
-- How many requests of a client get past the middleware, by the limiter of the policy that it is
-- under.
use rate_x_rate_limiter_web.Base.{
  ℕ, ◌+◌, ◌-◌, ◌*◌, ◌≤◌, ◌<◌, ◌≡◌, ◌⊎◌, inl, inr, String, Option, List, [], ◌∷◌, Result, arith,
  true, All, length, Bool-cases,
}
use rate_x_rate_limiter_web.Model.{Policy, ApiKey}
use rate_x_rate_limiter_web.Limiter.Times.{Follows, last, le-last}
use rate_x_rate_limiter_web.Limiter.Token.{Config, Bucket}
use rate_x_rate_limiter_web.Limiter.Token.Bounds.{allowed_count, allowed_count-le, split_refill}
use rate_x_rate_limiter_web.Limiter.Fixed as Fixed
use rate_x_rate_limiter_web.Limiter.Fixed.Quota.{InWindow, passed-le-limit}
use rate_x_rate_limiter_web.Limiter.Sliding as Sliding
use rate_x_rate_limiter_web.Limiter.Sliding.Spec.{in_use, in_window}
use rate_x_rate_limiter_web.Limiter.Replies.Bucket as Bucket
use rate_x_rate_limiter_web.Limiter.Replies.Failures as Failures
use rate_x_rate_limiter_web.Limiter.Replies.Set as Set
use rate_x_rate_limiter_web.Server.Gate.{Request, World}
use rate_x_rate_limiter_web.Server.Policies.{memory, fixed, sliding, token}
use rate_x_rate_limiter_web.Server.Factory.{Object}
use rate_x_rate_limiter_web.Server.Limits.{Kept, allow_for}
use rate_x_rate_limiter_web.Server.Limits.Interleaved.{
  IsUnder, moments, passes_of, passes_of-granted,
}
use rate_x_rate_limiter_web.Server.Limits.Calls.{
  calls, calls-token, calls-memory, calls-fixed, calls-sliding, in_ms, in_seconds,
}

-- A bucket from any moment before the first request on.
allowed_count-since :
    (c : Config) (hash : Option Bucket) (start : ℕ) (times : List ℕ)
    → Follows start times
    → c.window * allowed_count c hash times
      ≤ c.capacity * c.window + (last start times - start) * c.capacity
allowed_count-since c hash start [] h = omega arith
allowed_count-since c hash start (t ∷ times) (h, hs) = omega (
  arith,
  allowed_count-le c hash t times hs,
  split_refill start t (last t times) c.capacity h (le-last t times hs),
)

-- Requests from a moment on lie in the window of a later one that is less than a window away.
passed-recent :
    (z : Sliding.SortedSet) (r : Set.Redis z) (c : Sliding.Config) (start now : ℕ) (s : z.Store)
    (times : List ℕ)
    → Follows start times
    → now < start + c.window
    → length (Set.passed z r c s times) ≤ in_use c now (Set.passed z r c s times)
passed-recent z r c start now s [] f h = omega arith
passed-recent z r c start now s (t ∷ times) (le, f) h =
    let rest = passed-recent z r c t now (Set.allow z r c t s).1 times f (omega arith) in
    let here : in_window c now t ≡ true = ground arith in
    elim (Bool-cases (Set.lets (Set.allow z r c t s).0)) [
      | inl e ↦ rw (e, here) (omega (arith, rest))
      | inr e ↦ rw e rest
    ]

module _ (f : Fixed.Counters) (z : Sliding.SortedSet) (r : Set.Redis z) (b : Bucket.Redis)
    (object_of : Option Policy → Object) (find_key : ℕ → String → Result (ApiKey × Policy))
    (find_policy : String → String → Result (Option Policy)) (next_status : Request → ℕ)
    (key : String) (p : Option Policy) where
  -- The requests of the client that get past, among those of others.
  abbrev pub passed : World (String → Kept f z r b) → List (ℕ × Request) → ℕ
  passed = passes_of (allow_for f z r b object_of) find_key find_policy next_status key p

  abbrev pub own_moments : List (ℕ × Request) → List ℕ
  own_moments = moments (allow_for f z r b object_of) find_key find_policy next_status key p

  abbrev pub AllUnder : List (ℕ × Request) → Type 0
  AllUnder = All (IsUnder (allow_for f z r b object_of) find_key find_policy next_status key p)

  passed-calls :
      (w : World (String → Kept f z r b)) (visits : List (ℕ × Request))
      → AllUnder visits
      → passed w visits ≡ calls f z r b object_of p key (w.limiters key) (own_moments visits)
  passed-calls w visits under =
      passes_of-granted (allow_for f z r b object_of) find_key find_policy next_status key p w
        visits under

  -- A client under a token bucket policy, in Redis or in memory, with a capacity and a window that
  -- are not zero: of its requests at moments that do not go back, from a first one on, at most the
  -- capacity get past, and the capacity once more for each window that passes, whatever other clients
  -- send in between, whatever is stored before, and though Redis may fail at any call, where the
  -- middleware is closed on failures. Both sides are in parts of a token.
  pub passed-bucket :
      (capacity seconds start : ℕ) (w : World (String → Kept f z r b)) (visits : List (ℕ × Request))
      → ((object_of p).limiter ≡ memory capacity seconds)
        ⊎ ((object_of p).limiter ≡ token capacity seconds)
      → 0 < capacity
      → 0 < seconds
      → AllUnder visits
      → Follows start (own_moments visits)
      → seconds * 1000 * passed w visits
        ≤ capacity * (seconds * 1000) + (last start (own_moments visits) - start) * capacity
  passed-bucket capacity seconds start w visits (inl e) room positive under follows =
      rw
        (
          passed-calls w visits under,
          calls-memory f z r b object_of p key capacity seconds _ (own_moments visits) e,
        )
        (allowed_count-since (in_ms capacity seconds) _ start (own_moments visits) follows)
  passed-bucket capacity seconds start w visits (inr e) room positive under follows =
      rw
        (
          passed-calls w visits under,
          calls-token f z r b object_of p key capacity seconds _ (own_moments visits) e,
        )
        (Failures.granted-since b (in_ms capacity seconds) room (omega arith)
          (w.limiters key).bucket start (own_moments visits) follows)

  -- A client under a sliding window policy: of its requests in less than a window, at moments that do
  -- not go back, at most the limit get past, if no more than the limit are stored of the time before,
  -- whatever other clients send in between, and though Redis may fail at any call, where the
  -- middleware is closed on failures.
  pub passed-sliding :
      (limit seconds start : ℕ) (w : World (String → Kept f z r b)) (visits : List (ℕ × Request))
      → (object_of p).limiter ≡ sliding limit seconds
      → AllUnder visits
      → Follows start (own_moments visits)
      → last start (own_moments visits) < start + seconds * 1000
      → in_use
          (record { limit = limit; window = seconds * 1000 })
          start
          (z.scores (w.limiters key).set)
        ≤ limit
      → passed w visits ≤ limit
  passed-sliding limit seconds start w visits e under follows within before =
      let c : Sliding.Config = record { limit = limit; window = seconds * 1000 } in
      let now = last start (own_moments visits) in
      rw
        (
          passed-calls w visits under,
          calls-sliding f z r b object_of p key limit seconds _ (own_moments visits) e,
        )
        (omega (
          arith,
          passed-recent z r c start now (w.limiters key).set (own_moments visits) follows within,
          Set.passed-le z r c start now (w.limiters key).set (own_moments visits) follows
              (omega arith) before,
        ))

  -- A client under a fixed window policy: of its requests in one window at most the limit get past,
  -- whatever was counted before, whatever other clients send in between, and though Redis may fail at
  -- any call, where the middleware is closed on failures.
  pub passed-fixed :
      (limit seconds window : ℕ) (w : World (String → Kept f z r b)) (visits : List (ℕ × Request))
      → (object_of p).limiter ≡ fixed limit seconds
      → AllUnder visits
      → InWindow f
          (record { limit = limit; window = seconds })
          window
          (in_seconds (own_moments visits))
      → passed w visits ≤ limit
  passed-fixed limit seconds window w visits e under within =
      rw
        (
          passed-calls w visits under,
          calls-fixed f z r b object_of p key limit seconds _ (own_moments visits) e,
        )
        (passed-le-limit f (record { limit = limit; window = seconds }) key window
          (in_seconds (own_moments visits)) _ within)
