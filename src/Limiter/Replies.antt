-- ===== src/Limiter/Replies.antt =====
-- What the Redis client hands to the limiters: `parseScriptResult` and `toInt` of
-- internal/limiter/token_bucket.go, and `Allow` of the token bucket and of the sliding window around
-- a call of EVAL that may fail. The number that a decision keeps is 0 for a negative one.
pub mod Scan
pub mod Values
pub mod Bucket
pub mod Failures
pub mod Set
use rate_x_rate_limiter_web.Base.{
  ℕ, ◌/◌, String, Bool, true, false, List, [], ◌∷◌, Result, ok, err, ◌>>=◌, ◌==◌, if◌then◌else◌,
}
use rate_x_rate_limiter_web.Text.Numbers.{ℤ, pos, negsuc, to_nat}
use rate_x_rate_limiter_web.Limiter.{Decision}
use rate_x_rate_limiter_web.Limiter.Replies.Scan.{sscanf}

-- The values in a reply of Redis, by the types that `toInt` tells apart.
pub data Value : Type 0 where
  int64 : ℤ → Value
  text : String → Value
  other : Value

unfoldable pub to_int : Value → Result ℤ
to_int (int64 n) = ok n
to_int (text s) = sscanf s
to_int other = err "unexpected numeric type"

abbrev pub is_one : ℤ → Bool
is_one (pos n) = n == 1
is_one (negsuc n) = false

-- The values after the fourth are not looked at.
unfoldable pub parse_script_result : List Value → ℕ → Result Decision
parse_script_result (a ∷ b ∷ c ∷ d ∷ values) reset_after = do
  allowed ← to_int a
  remaining ← to_int b
  retry_after ← to_int c
  limit ← to_int d
  ok (record {
    allowed = is_one allowed;
    remaining = to_nat remaining;
    retry_after = to_nat retry_after;
    limit = to_nat limit;
    reset_after = reset_after;
  })
parse_script_result _ reset_after = err "unexpected redis script result"

-- `Allow` after the EVAL, for a window of so many milliseconds.
abbrev pub parsed : {S : Type 0} → ℕ → Result (List Value) × S → Result Decision × S
parsed window (err e, s) = (err e, s)
parsed window (ok values, s) = (parse_script_result values (window / 1000), s)

-- The four values that a script returns for a decision.
abbrev pub values_of : Decision → List Value
values_of d =
    int64 (pos (if d.allowed then 1 else 0))
    ∷ int64 (pos d.remaining)
    ∷ int64 (pos d.retry_after)
    ∷ int64 (pos d.limit)
    ∷ []

-- Whether a call of `Allow` lets the request through.
abbrev pub let_by : Result Decision → ℕ
let_by (ok d) = if d.allowed then 1 else 0
let_by (err e) = 0
