-- ===== src/Limiter/Token.antt =====
-- The token bucket: `TokenBucketScript` of internal/redis/scripts.go and `Allow` of
-- internal/limiter/token_bucket.go. The script is a function of the hash that is stored under the
-- key (none, if there is none or it has expired) and of the time. Amounts are exact: a token is cut
-- into as many parts as the window has milliseconds, so that a millisecond adds `capacity` parts. The
-- script computes in doubles, whose last digits may differ: with one token in 161 seconds it has
-- 0.9999999999999999 tokens after 161 seconds, where there is a whole one here.
pub mod Bounds
pub mod Expiry
pub mod Burst
use rate_x_rate_limiter_web.Base.{
  ℕ, suc, ◌+◌, ◌-◌, ◌*◌, ◌/◌, min, Bool, true, false, Option, none, some, leb, ltb, ◌==◌,
  if◌then◌else◌,
}
use rate_x_rate_limiter_web.Limiter.{Decision}

-- `capacity` tokens in `window` milliseconds.
pub record Config : Type 0 where
  pub capacity : ℕ
  pub window : ℕ

-- The fields `tokens` (in parts) and `last_refill` of the hash.
pub record Bucket : Type 0 where
  pub tokens : ℕ
  pub last_refill : ℕ

abbrev pub full : Config → ℕ
full c = c.capacity * c.window

-- A missing hash is a full bucket of this moment.
abbrev pub stored : Config → ℕ → Option Bucket → Bucket
stored c now none = record { tokens = full c; last_refill = now }
stored c now (some b) = b

-- `math.max(0, now_ms - last_refill)` is the subtraction of ℕ.
unfoldable pub refilled : Config → ℕ → Bucket → ℕ
refilled c now b = min (full c) (b.tokens + (now - b.last_refill) * c.capacity)

-- `math.ceil(missing / refill_rate)` for a rate of tokens in a second.
abbrev pub ceil_div : ℕ → ℕ → ℕ
ceil_div a b = (a + b - 1) / b

pub record Reply : Type 0 where
  pub allowed : Bool
  pub remaining : ℕ
  pub retry_after : ℕ
  pub bucket : Bucket

-- The script with `requested` = 1, from the refilled amount on.
unfoldable pub take_token : Config → ℕ → ℕ → Reply
take_token c now tokens =
    if leb c.window tokens
    then record {
      allowed = true;
      remaining = (tokens - c.window) / c.window;
      retry_after = 0;
      bucket = record { tokens = tokens - c.window; last_refill = now };
    }
    else record {
      allowed = false;
      remaining = tokens / c.window;
      retry_after = ceil_div (c.window - tokens) (c.capacity * 1000);
      bucket = record { tokens = tokens; last_refill = now };
    }

unfoldable pub script : Config → ℕ → Option Bucket → Reply
script c now hash = take_token c now (refilled c now (stored c now hash))

-- What `parseScriptResult` makes of the four values of the script.
abbrev pub decision_of : Config → Reply → Decision
decision_of c r = record {
  allowed = r.allowed;
  remaining = r.remaining;
  retry_after = r.retry_after;
  limit = c.capacity;
  reset_after = c.window / 1000;
}

-- The window that the rate is computed from: a minute for none.
abbrev pub rate_config : Config → Config
rate_config c = if c.window == 0 then record c { window = 60000 } else c

-- The hash lives for twice the window; with no time to live it is gone at once.
abbrev pub kept : Config → Bucket → Option Bucket
kept c b = if 2 * c.window == 0 then none else some b

-- `Allow`, where Redis answers: the decision, and what is stored under the key afterwards. A limiter
-- with no capacity asks Redis nothing.
unfoldable pub allow : Config → ℕ → Option Bucket → Decision × Option Bucket
allow c now hash =
    if c.capacity == 0
    then (
      record {
        allowed = false;
        remaining = 0;
        retry_after = 1;
        limit = c.capacity;
        reset_after = 0;
      },
      hash,
    )
    else let r = script (rate_config c) now hash in (decision_of c r, kept c r.bucket)
