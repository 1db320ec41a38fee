-- ===== src/Limiter/Memory.antt =====
-- The token bucket in memory: `Allow` of internal/limiter/memory.go. Amounts are exact, in parts of a
-- token as in `Limiter.Token`, where the source computes in doubles from seconds that are doubles;
-- instants and the window are in units of which a second has `second` (10^9 in the source). The
-- capacity and the window are not 0: the rate would be no number. The clock is monotonic and is read
-- under the lock, so no instant is before the last refill, and the difference, which the source does
-- not hold above 0, is not cut.
pub mod Agrees
pub mod Retry
use rate_x_rate_limiter_web.Base.{
  ℕ, ◌+◌, ◌-◌, ◌*◌, ◌/◌, min, max, String, Bool, true, false, Option, none, some, List, [], ◌∷◌,
  leb, str_eq, if◌then◌else◌,
}
use rate_x_rate_limiter_web.Limiter.{Decision}
use rate_x_rate_limiter_web.Limiter.Token.{Config, Bucket, full, Reply}

-- `buckets`
abbrev pub Buckets : Type 0
Buckets = String → Option Bucket

abbrev pub put : String → Bucket → Buckets → Buckets
put k b m j = if str_eq j k then some b else m j

-- A key with no bucket has a full one of this moment.
abbrev pub bucket_at : Config → ℕ → Option Bucket → Bucket
bucket_at c now none = record { tokens = full c; last_refill = now }
bucket_at c now (some b) = b

unfoldable pub topped_up : Config → ℕ → Bucket → ℕ
topped_up c now b = min (full c) (b.tokens + (now - b.last_refill) * c.capacity)

-- From the amount after the refill on. The seconds to wait are rounded down, to 1 at least.
unfoldable pub take_one : ℕ → Config → ℕ → ℕ → Reply
take_one second c now tokens =
    if leb c.window tokens
    then record {
      allowed = true;
      remaining = (tokens - c.window) / c.window;
      retry_after = 0;
      bucket = record { tokens = tokens - c.window; last_refill = now };
    }
    else record {
      allowed = false;
      remaining = tokens / c.window;
      retry_after = max 1 ((c.window - tokens) / (c.capacity * second));
      bucket = record { tokens = tokens; last_refill = now };
    }

unfoldable pub reply : ℕ → Config → ℕ → Option Bucket → Reply
reply second c now b = take_one second c now (topped_up c now (bucket_at c now b))

unfoldable pub allow : ℕ → Config → ℕ → String → Buckets → Decision × Buckets
allow second c now key buckets =
    let r = reply second c now (buckets key) in
    (
      record {
        allowed = r.allowed;
        remaining = r.remaining;
        retry_after = r.retry_after;
        limit = c.capacity;
        reset_after = c.window / second;
      },
      put key r.bucket buckets,
    )
