-- ===== src/Limiter/Token/Bounds.antt =====
-- How many requests a token bucket lets through.
use rate_x_rate_limiter_web.Base.{
  ℕ, ◌+◌, ◌-◌, ◌*◌, ◌≤◌, ◌≡◌, Bool, true, false, Option, some, List, [], ◌∷◌, arith, ap, subst,
  if◌then◌else◌,
}
use rate_x_rate_limiter_web.Limiter.Times.{Follows, last, le-last}
use rate_x_rate_limiter_web.Limiter.Token.{
  Config, Bucket, full, stored, refilled, take_token, script, Reply,
}

abbrev pub parts : Config → Bool → ℕ
parts c true = c.window
parts c false = 0

-- One request takes from the bucket what it lets through, and nothing else.
pub take_token_balance :
    (c : Config) (now tokens : ℕ)
    → (take_token c now tokens).bucket.tokens + parts c (take_token c now tokens).allowed ≡ tokens
unfolding take_token
take_token_balance c now tokens = ground arith

pub last_refill-take_token :
    (c : Config) (now tokens : ℕ) → (take_token c now tokens).bucket.last_refill ≡ now
unfolding take_token
last_refill-take_token c now tokens = ground arith

pub refilled-le :
    (c : Config) (now : ℕ) (b : Bucket)
    → (refilled c now b ≤ b.tokens + (now - b.last_refill) * c.capacity)
      × (refilled c now b ≤ full c)
unfolding refilled
refilled-le c now b = omega arith

-- How many of the requests at the given times a bucket lets through.
abbrev pub allowed_count : Config → Option Bucket → List ℕ → ℕ
allowed_count c hash [] = 0
allowed_count c hash (t ∷ times) =
    (if (script c t hash).allowed then 1 else 0)
    + allowed_count c (some (script c t hash).bucket) times

mul_add_distrib : (x y cap : ℕ) → (x + y) * cap ≡ x * cap + y * cap
mul_add_distrib x y cap = omega arith

sub_split : (a b d : ℕ) → a ≤ b → b ≤ d → (b - a) + (d - b) ≡ d - a
sub_split a b d h k = omega arith

-- Time that passes in two steps brings what it brings in one.
pub split_refill : (a b d cap : ℕ) → a ≤ b → b ≤ d → (b - a) * cap + (d - b) * cap ≡ (d - a) * cap
split_refill a b d cap h k =
    omega
      (arith, mul_add_distrib (b - a) (d - b) cap, ap (λ (x : ℕ). x * cap) (sub_split a b d h k))

pub parts-eq : (c : Config) (b : Bool) → c.window * (if b then 1 else 0) ≡ parts c b
parts-eq c true = omega arith
parts-eq c false = omega arith

taken-le :
    (c : Config) (b : Bucket) (times : List ℕ)
    → Follows b.last_refill times
    → c.window * allowed_count c (some b) times
      ≤ b.tokens + (last b.last_refill times - b.last_refill) * c.capacity
unfolding script
taken-le c b [] h = omega arith
taken-le c b (t ∷ times) (h, hs) =
    let tokens : ℕ = refilled c t b in
    let r : Reply = take_token c t tokens in
    let e : r.bucket.last_refill ≡ t = last_refill-take_token c t tokens in
    let ih : c.window * allowed_count c (some r.bucket) times
        ≤ r.bucket.tokens + (last t times - t) * c.capacity =
      subst
        (λ u.
          c.window * allowed_count c (some r.bucket) times
          ≤ r.bucket.tokens + (last u times - u) * c.capacity)
        e (taken-le c r.bucket times (rw e hs)) in
    omega (
      arith,
      ih,
      parts-eq c r.allowed,
      take_token_balance c t tokens,
      (refilled-le c t b).0,
      split_refill b.last_refill t (last t times) c.capacity h (le-last t times hs),
    )

-- Whatever is stored under the key, of the requests at times that do not go back a token bucket lets
-- through at most its capacity, and the capacity once more for each window that passes between the
-- first and the last of them. Both sides are in parts of a token.
pub allowed_count-le :
    (c : Config) (hash : Option Bucket) (t : ℕ) (times : List ℕ)
    → Follows t times
    → c.window * allowed_count c hash (t ∷ times) ≤ full c + (last t times - t) * c.capacity
unfolding script
allowed_count-le c hash t times h =
    let b : Bucket = stored c t hash in
    let tokens : ℕ = refilled c t b in
    let r : Reply = take_token c t tokens in
    let e : r.bucket.last_refill ≡ t = last_refill-take_token c t tokens in
    let later : c.window * allowed_count c (some r.bucket) times
        ≤ r.bucket.tokens + (last t times - t) * c.capacity =
      subst
        (λ u.
          c.window * allowed_count c (some r.bucket) times
          ≤ r.bucket.tokens + (last u times - u) * c.capacity)
        e (taken-le c r.bucket times (rw e h)) in
    omega (arith, later, parts-eq c r.allowed, take_token_balance c t tokens, (refilled-le c t b).1)
