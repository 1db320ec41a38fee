-- ===== src/Server/Limits/Overlap.antt =====
-- Two first requests under a policy whose calls of `FromPolicy` overlap, with the limiters in memory.
use rate_x_rate_limiter_web.Base.{
  ℕ, zero, suc, ◌+◌, ◌*◌, ◌-◌, ◌/◌, ◌<◌, ◌≡◌, ◌==◌, ◌∙◌, refl, ap, sym, String, Bool, true, false,
  Option, none, List, Result, min, arith, ◌||◌, str_eq, if◌then◌else◌,
}
use rate_x_rate_limiter_web.Model.{Policy, PolicyDraft}
use rate_x_rate_limiter_web.Limiter.{Decision}
use rate_x_rate_limiter_web.Limiter.Token as Token
use rate_x_rate_limiter_web.Limiter.Token.Bounds.{allowed_count}
use rate_x_rate_limiter_web.Limiter.Token.Burst.{at_once, allowed_count-at_once}
use rate_x_rate_limiter_web.Limiter.Fixed as Fixed
use rate_x_rate_limiter_web.Limiter.Sliding as Sliding
use rate_x_rate_limiter_web.Limiter.Replies.{let_by}
use rate_x_rate_limiter_web.Limiter.Replies.Bucket as Bucket
use rate_x_rate_limiter_web.Limiter.Replies.Set as Set
use rate_x_rate_limiter_web.Server.Config.{Config}
use rate_x_rate_limiter_web.Server.Policies.{memory, new_limiter}
use rate_x_rate_limiter_web.Server.Factory.{Object, Factory, cache_key, lookup, after}
use rate_x_rate_limiter_web.Server.Factory.Race.{overlapping, overlapping-first, overlapping-later}
use rate_x_rate_limiter_web.Server.Factory.Default.{
  limiter_of, in_memory, policy_or_default, IsCapacity,
}
use rate_x_rate_limiter_web.Server.Limits.{Kept, allow_object, allow_for}
use rate_x_rate_limiter_web.Server.Limits.Interleaved.{granted}
use rate_x_rate_limiter_web.Server.Limits.Calls.{in_ms, calls-memory}

-- A bucket that is not there yet lets through as many requests of one moment as its capacity.
fresh_burst : (c w now n : ℕ) → 0 < w → allowed_count (in_ms c w) none (at_once n now) ≡ min n c
unfolding Token.refilled
fresh_burst c w now n hw =
    let at_most = allowed_count-at_once (in_ms c w) now (omega arith) none n in
    let whole : c * (w * 1000) / (w * 1000) ≡ c = grind arith in
    let full : min (c * (w * 1000)) (c * (w * 1000) + (now - now) * c) ≡ c * (w * 1000) =
      omega arith in
    at_most ∙ rw (full, whole)

IsCapacity-same :
    (limit burst c : ℕ) → IsCapacity limit burst c → (if burst == 0 then limit else burst) ≡ c
IsCapacity-same limit zero c h = sym h
IsCapacity-same limit (suc burst) c h = ground arith

new_limiter-memory :
    (here : Bool) (d : PolicyDraft) (c : ℕ)
    → here ≡ true
    → IsCapacity d.request_limit d.burst_capacity c
    → new_limiter here d ≡ memory c d.window_seconds
unfolding new_limiter
new_limiter-memory here d c e h = rw (e, IsCapacity-same d.request_limit d.burst_capacity c h) refl

module _ (f : Fixed.Counters) (z : Sliding.SortedSet) (r : Set.Redis z) (b : Bucket.Redis)
    (cfg : Config) (no_redis : Bool) (p : Option Policy) (key : String) (now : ℕ) where
  -- The two calls of `FromPolicy`.
  abbrev both : Factory → Object × Object × Factory
  both = overlapping (in_memory cfg no_redis) cfg.rate_limit_backend (policy_or_default cfg p)

  -- What the limiters of the factory answer, after calls for other policies.
  abbrev later :
      List PolicyDraft
      → Factory
      → ℕ
      → Option Policy
      → String
      → Kept f z r b
      → Result Decision × Kept f z r b
  later between g =
      allow_for f z r b
        (limiter_of cfg no_redis (after (in_memory cfg no_redis) cfg.rate_limit_backend between g))

  -- How many requests of a client get past in one moment: the one that asks the object of the call
  -- that wrote first, and `n` that call `FromPolicy` once both have written.
  abbrev pub passed_at_once : Factory → List PolicyDraft → ℕ → Kept f z r b → ℕ
  passed_at_once g between n s =
      let (answer, t) = allow_object f z r b (both g).0.number (both g).0.limiter now key s in
      let_by answer + granted (later between (both g).2) p key t (at_once n now)

  -- A limiter in memory that has no bucket of the key lets a request through, and touches no bucket
  -- of another limiter.
  first_fresh :
      (i j c w : ℕ) (s : Kept f z r b)
      → 0 < c
      → 0 < w
      → s.buckets i ≡ none
      → (j == i) ≡ false
      → (let_by (allow_object f z r b i (memory c w) now key s).0 ≡ 1)
        × ((allow_object f z r b i (memory c w) now key s).1.buckets j ≡ s.buckets j)
  unfolding allow_object allow_for
  first_fresh i j c w s hc hw fresh other =
      let object : Object = record { number = i; limiter = memory c w } in
      let one = calls-memory f z r b (λ q. object) p key c w s (at_once 1 now) refl in
      let few = fresh_burst c w now 1 hw in
      let total : let_by (allow_object f z r b i (memory c w) now key s).0 + 0 ≡ min 1 c =
        one ∙ ap (λ hash. allowed_count (in_ms c w) hash (at_once 1 now)) fresh ∙ few in
      (omega (arith, total, hc), rw other refl)

  -- The requests of the second object, which has no bucket yet.
  second_fresh :
      (object_of : Option Policy → Object) (i c w n : ℕ) (s : Kept f z r b)
      → object_of p ≡ record { number = i; limiter = memory c w }
      → 0 < w
      → s.buckets i ≡ none
      → granted (allow_for f z r b object_of) p key s (at_once n now) ≡ min n c
  second_fresh object_of i c w n s e hw fresh =
      let all =
        calls-memory f z r b object_of p key c w s (at_once n now)
          (ap (λ (o : Object). o.limiter) e) in
      let number : (object_of p).number ≡ i = ap (λ (o : Object). o.number) e in
      let found = rw (number, fresh) at all in found ∙ fresh_burst c w now n hw

  -- With the limiters in memory, two calls of `FromPolicy` for a policy that has no limiter yet
  -- overlap: both read the cache before either writes it. Then, of one request of a client that asks
  -- the limiter which the call that wrote first returned, and `n` more that call `FromPolicy` once both
  -- have written, whatever policies were asked for since, all in one moment, 1 more than the least of
  -- `n` and the policy's capacity gets past: the first request is not counted against the capacity,
  -- which is the burst capacity or, where that is 0, the limit. The capacity and the window are not 0,
  -- and no limiter of the two numbers that come next has a bucket of the client.
  pub overlapping-passed_at_once :
      (g : Factory) (between : List PolicyDraft) (n c : ℕ) (s : Kept f z r b)
      → (str_eq cfg.rate_limit_backend "memory" || no_redis) ≡ true
      → lookup (cache_key cfg.rate_limit_backend (policy_or_default cfg p)) g.cache ≡ none
      → IsCapacity
          (policy_or_default cfg p).request_limit
          (policy_or_default cfg p).burst_capacity
          c
      → 0 < c
      → 0 < (policy_or_default cfg p).window_seconds
      → s.buckets g.made ≡ none
      → s.buckets (g.made + 1) ≡ none
      → passed_at_once g between n s ≡ 1 + min n c
  unfolding limiter_of
  overlapping-passed_at_once g between n c s here missing capacity hc hw none_first none_second =
      let d : PolicyDraft = policy_or_default cfg p in
      let kind : new_limiter (in_memory cfg no_redis) d ≡ memory c d.window_seconds =
        new_limiter-memory (in_memory cfg no_redis) d c here capacity in
      let first = overlapping-first (in_memory cfg no_redis) cfg.rate_limit_backend d g missing in
      let second =
        overlapping-later (in_memory cfg no_redis) cfg.rate_limit_backend d g missing between in
      let (one, rest) =
        first_fresh g.made (g.made + 1) c d.window_seconds s hc hw none_first (ground arith) in
      rw (first, kind, one)
        (ap (λ m. 1 + m)
          (second_fresh _ (g.made + 1) c d.window_seconds n _ (rw kind at second) hw
            (rest ∙ none_second)))
