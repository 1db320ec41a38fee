-- ===== src/Server/Limits.antt =====
-- The rate limit middleware with the limiters themselves: what `FromPolicy` of
-- internal/middleware/rate_limit.go gives for a policy is asked, with the key that the middleware
-- makes, over what is stored under that key. Each key has stores of its own: the counters, the set
-- and the hash in Redis, which may fail, and the buckets of the limiters in memory, by the number of
-- the limiter. Moments are whole milliseconds.
pub mod Interleaved
pub mod Calls
pub mod Quota
pub mod Overlap
use rate_x_rate_limiter_web.Base.{
  ℕ, ◌*◌, ◌/◌, String, Option, Result, ok, str_eq, ◌==◌, if◌then◌else◌,
}
use rate_x_rate_limiter_web.Model.{Policy}
use rate_x_rate_limiter_web.Limiter.{Decision}
use rate_x_rate_limiter_web.Limiter.Token.{Bucket}
use rate_x_rate_limiter_web.Limiter.Fixed as Fixed
use rate_x_rate_limiter_web.Limiter.Sliding as Sliding
use rate_x_rate_limiter_web.Limiter.Memory as Memory
use rate_x_rate_limiter_web.Limiter.Replies.Bucket as Bucket
use rate_x_rate_limiter_web.Limiter.Replies.Set as Set
use rate_x_rate_limiter_web.Server.Policies.{Limiter, memory, fixed, sliding, token}
use rate_x_rate_limiter_web.Server.Factory.{Object}

-- What other keys have is left.
abbrev pub keyed :
    {T : Type 0}
    → (ℕ → Option Policy → String → T → Result Decision × T)
    → ℕ
    → Option Policy
    → String
    → (String → T)
    → Result Decision × (String → T)
keyed single now p key m =
    let (d, s) = single now p key (m key) in (d, λ j. if str_eq j key then s else m j)

module _ (f : Fixed.Counters) (z : Sliding.SortedSet) (r : Set.Redis z) (b : Bucket.Redis) where
  -- What is stored under a key.
  pub record Kept : Type 0 where
    pub counters : f.Store
    pub set : z.Store
    pub bucket : b.Store
    pub buckets : ℕ → Option Bucket

  abbrev pub with_counters : Kept → Result Decision × f.Store → Result Decision × Kept
  with_counters s (d, t) = (d, record s { counters = t })

  abbrev pub with_set : Kept → Result Decision × z.Store → Result Decision × Kept
  with_set s (d, t) = (d, record s { set = t })

  abbrev pub with_bucket : Kept → Result Decision × b.Store → Result Decision × Kept
  with_bucket s (d, t) = (d, record s { bucket = t })

  -- After `Allow` of the limiter in memory with a number.
  abbrev pub with_memory : ℕ → String → Kept → Decision × Memory.Buckets → Result Decision × Kept
  with_memory number key s (d, t) =
      (ok d, record s { buckets = λ n. if n == number then t key else s.buckets n })

  -- `Allow`, at a moment and for a key.
  unfoldable pub allow_object : ℕ → Limiter → ℕ → String → Kept → Result Decision × Kept
  allow_object number (memory capacity seconds) now key s = with_memory number key s (
      Memory.allow 1000 (record { capacity = capacity; window = seconds * 1000 }) now key
        (λ j. s.buckets number))
  allow_object number (fixed limit seconds) now key s =
      with_counters s
        (Fixed.allow f (record { limit = limit; window = seconds }) key (now / 1000) s.counters)
  allow_object number (sliding limit seconds) now key s =
      with_set s (Set.allow z r (record { limit = limit; window = seconds * 1000 }) now s.set)
  allow_object number (token capacity seconds) now key s =
      with_bucket s
        (Bucket.allow b (record { capacity = capacity; window = seconds * 1000 }) now s.bucket)

  -- The limiter of a policy is asked, under a key. `object_of` is what `FromPolicy` returns, for none
  -- of the default policy.
  unfoldable pub allow_for :
      (Option Policy → Object) → ℕ → Option Policy → String → Kept → Result Decision × Kept
  allow_for object_of now p key s =
      allow_object (object_of p).number (object_of p).limiter now key s
