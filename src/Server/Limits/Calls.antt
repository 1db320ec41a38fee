-- ===== src/Server/Limits/Calls.antt =====
-- The calls of the middleware for one key, by the limiter of the policy.
use rate_x_rate_limiter_web.Base.{
  ℕ, ◌+◌, ◌*◌, ◌/◌, ◌≡◌, refl, String, true, Option, some, List, [], ◌∷◌, Result, ok, err, arith,
  length, eq_refl, ◌==◌, if◌then◌else◌,
}
use rate_x_rate_limiter_web.Model.{Policy}
use rate_x_rate_limiter_web.Limiter.{Decision}
use rate_x_rate_limiter_web.Limiter.Token as Token
use rate_x_rate_limiter_web.Limiter.Token.Bounds.{allowed_count}
use rate_x_rate_limiter_web.Limiter.Fixed as Fixed
use rate_x_rate_limiter_web.Limiter.Fixed.Quota as Quota
use rate_x_rate_limiter_web.Limiter.Sliding as Sliding
use rate_x_rate_limiter_web.Limiter.Memory as Memory
use rate_x_rate_limiter_web.Limiter.Memory.Agrees.{reply-script}
use rate_x_rate_limiter_web.Limiter.Replies.{let_by}
use rate_x_rate_limiter_web.Limiter.Replies.Bucket as Bucket
use rate_x_rate_limiter_web.Limiter.Replies.Failures as Failures
use rate_x_rate_limiter_web.Limiter.Replies.Set as Set
use rate_x_rate_limiter_web.Server.Policies.{Limiter, memory, fixed, sliding, token}
use rate_x_rate_limiter_web.Server.Factory.{Object}
use rate_x_rate_limiter_web.Server.Limits.{
  Kept, with_bucket, with_counters, with_set, allow_object, allow_for,
}
use rate_x_rate_limiter_web.Server.Limits.Interleaved.{granted}

abbrev pub in_seconds : List ℕ → List ℕ
in_seconds [] = []
in_seconds (t ∷ times) = t / 1000 ∷ in_seconds times

abbrev pub in_ms : ℕ → ℕ → Token.Config
in_ms capacity seconds = record { capacity = capacity; window = seconds * 1000 }

length-passed :
    (d : Result Decision) (t : ℕ) (rest : List ℕ)
    → let_by d + length rest ≡ length (if Set.lets d then t ∷ rest else rest)
length-passed (ok d) t rest = ground arith
length-passed (err e) t rest = omega arith

module _ (f : Fixed.Counters) (z : Sliding.SortedSet) (r : Set.Redis z) (b : Bucket.Redis)
    (object_of : Option Policy → Object) (p : Option Policy) (key : String) where
  abbrev pub own : Limiter
  own = (object_of p).limiter

  abbrev pub calls : Kept f z r b → List ℕ → ℕ
  calls = granted (allow_for f z r b object_of) p key

  -- One call, by the limiter.
  call-token :
      (capacity seconds now : ℕ) (s : Kept f z r b)
      → own ≡ token capacity seconds
      → allow_for f z r b object_of now p key s
        ≡ with_bucket f z r b s (Bucket.allow b (in_ms capacity seconds) now s.bucket)
  unfolding allow_for allow_object
  call-token capacity seconds now s e = rw e refl

  call-memory :
      (capacity seconds now : ℕ) (s : Kept f z r b)
      → own ≡ memory capacity seconds
      → let_by (allow_for f z r b object_of now p key s).0 ≡ (
          if (Token.script (in_ms capacity seconds) now (s.buckets (object_of p).number)).allowed
          then 1
          else 0)
        × ((allow_for f z r b object_of now p key s).1.buckets (object_of p).number
            ≡ some
                (Token.script (in_ms capacity seconds) now (s.buckets (object_of p).number)).bucket)
  unfolding allow_for allow_object Memory.allow
  call-memory capacity seconds now s e =
      let (allowed, remaining, bucket) =
        reply-script 1000 (in_ms capacity seconds) now (s.buckets (object_of p).number) in
      let same : ((object_of p).number == (object_of p).number) ≡ true = ground arith in
      rw (e, same, eq_refl key, allowed, bucket) (refl, refl)

  pub calls-token :
      (capacity seconds : ℕ) (s : Kept f z r b) (times : List ℕ)
      → own ≡ token capacity seconds
      → calls s times ≡ Failures.granted b (in_ms capacity seconds) s.bucket times
  calls-token capacity seconds s [] e = refl
  calls-token capacity seconds s (t ∷ times) e =
      let after = Bucket.allow b (in_ms capacity seconds) t s.bucket in
      rw
        (
          call-token capacity seconds t s e,
          calls-token capacity seconds (with_bucket f z r b s after).1 times e,
        )
        refl

  pub calls-memory :
      (capacity seconds : ℕ) (s : Kept f z r b) (times : List ℕ)
      → own ≡ memory capacity seconds
      → calls s times
        ≡ allowed_count (in_ms capacity seconds) (s.buckets (object_of p).number) times
  calls-memory capacity seconds s [] e = refl
  calls-memory capacity seconds s (t ∷ times) e =
      let (first, left) = call-memory capacity seconds t s e in
      rw
        (
          first,
          calls-memory capacity seconds (allow_for f z r b object_of t p key s).1 times e,
          left,
        )
        refl

  call-fixed :
      (limit seconds now : ℕ) (s : Kept f z r b)
      → own ≡ fixed limit seconds
      → allow_for f z r b object_of now p key s
        ≡ with_counters f z r b s
            (Fixed.allow f (record { limit = limit; window = seconds }) key (now / 1000) s.counters)
  unfolding allow_for allow_object
  call-fixed limit seconds now s e = rw e refl

  call-sliding :
      (limit seconds now : ℕ) (s : Kept f z r b)
      → own ≡ sliding limit seconds
      → allow_for f z r b object_of now p key s
        ≡ with_set f z r b s
            (Set.allow z r (record { limit = limit; window = seconds * 1000 }) now s.set)
  unfolding allow_for allow_object
  call-sliding limit seconds now s e = rw e refl

  pub calls-fixed :
      (limit seconds : ℕ) (s : Kept f z r b) (times : List ℕ)
      → own ≡ fixed limit seconds
      → calls s times
        ≡ Quota.passed f
            (record { limit = limit; window = seconds })
            key
            (in_seconds times)
            s.counters
  calls-fixed limit seconds s [] e = refl
  calls-fixed limit seconds s (t ∷ times) e =
      let after =
        Fixed.allow f (record { limit = limit; window = seconds }) key (t / 1000) s.counters in
      rw
        (
          call-fixed limit seconds t s e,
          calls-fixed limit seconds (with_counters f z r b s after).1 times e,
        )
        refl

  pub calls-sliding :
      (limit seconds : ℕ) (s : Kept f z r b) (times : List ℕ)
      → own ≡ sliding limit seconds
      → calls s times
        ≡ length (Set.passed z r (record { limit = limit; window = seconds * 1000 }) s.set times)
  calls-sliding limit seconds s [] e = refl
  calls-sliding limit seconds s (t ∷ times) e =
      let after = Set.allow z r (record { limit = limit; window = seconds * 1000 }) t s.set in
      rw
        (
          call-sliding limit seconds t s e,
          calls-sliding limit seconds (with_set f z r b s after).1 times e,
        )
        (length-passed after.0 t _)
