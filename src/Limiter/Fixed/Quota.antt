-- ===== src/Limiter/Fixed/Quota.antt =====
-- How many requests a fixed window lets through.
use rate_x_rate_limiter_web.Base.{
  ℕ, suc, ◌+◌, ◌≤◌, ◌≡◌, refl, String, Option, List, [], ◌∷◌, Result, ok, err, ◌==◌, arith, inl,
  inr, Bool-cases, min, length, subst, ◌/◌, ap, ◌∙◌,
}
use rate_x_rate_limiter_web.Text.{join, show}
use rate_x_rate_limiter_web.Limiter.{Decision}
use rate_x_rate_limiter_web.Limiter.Replies.{let_by}
use rate_x_rate_limiter_web.Limiter.Fixed.{
  Counters, Config, redis_key, allow, decide, counted, expired,
}

abbrev pub Succeeds : Result Decision → Type 0
Succeeds (err e) = ⊥
Succeeds (ok d) = Unit

module _ (r : Counters) (c : Config) where
  open r use {Store, count, incr, expire, ttl, incr-ok, incr-err, count-expire}

  -- One call: what it lets through is paid by the count of its key, as far as the limit; where
  -- the call succeeds, exactly.
  abbrev Pays : ℕ → String → Result Decision × Store → Type 0
  Pays before k (d, s') = let_by d + min before c.limit ≤ min (count s' k) c.limit

  abbrev PaysExactly : ℕ → String → Result Decision × Store → Type 0
  PaysExactly before k (d, s') =
      Succeeds d
      → (count s' k ≡ suc before) × (let_by d + min before c.limit ≡ min (suc before) c.limit)

  abbrev Counts : ℕ → String → Result Decision × Store → Type 0
  Counts before k p = Pays before k p × PaysExactly before k p

  decided :
      (before n : ℕ) (k : String) (s' : Store) (left : Option ℕ)
      → n ≡ suc before
      → count s' k ≡ suc before
      → Counts before k (ok (decide c n left), s')
  decided before n k s' left h m = (ground arith, λ _. (m, ground arith))

  expired-Counts :
      (before n : ℕ) (k : String) (p : Result (Unit {0}) × Store)
      → n ≡ suc before
      → count p.1 k ≡ suc before
      → Counts before k (expired r c k n p)
  expired-Counts before n k (err e, s') h m = (omega arith, λ f. absurd f)
  expired-Counts before n k (ok _, s') h m = decided before n k s' (ttl k s') h m

  counted-Counts :
      (k : String) (s : Store) (p : Result ℕ × Store)
      → incr k s ≡ p
      → Counts (count s k) k (counted r c k p)
  counted-Counts k s (err e, s') h =
      let m : count s k ≤ count s' k = rw h at (incr-err k s e (ap (λ q. q.0) h)) in
      (omega arith, λ f. absurd f)
  counted-Counts k s (ok n, s') h =
      let (first, after) = rw h at (incr-ok k s n (ap (λ q. q.0) h)) in
      elim (Bool-cases (n == 1)) [
        | inl one ↦ rw one (
            expired-Counts (count s k) n k (expire k c.window s') first
              (count-expire k c.window s' k ∙ after))
        | inr more ↦ rw more (decided (count s k) n k s' (ttl k s') first after)
      ]

  -- The requests of a client at the given times, one after another.
  abbrev pub passed : String → List ℕ → Store → ℕ
  passed key [] s = 0
  passed key (t ∷ times) s = let_by (allow r c key t s).0 + passed key times (allow r c key t s).1

  -- None of the requests ends in an error.
  abbrev pub NoErrors : String → List ℕ → Store → Type 0
  NoErrors key [] s = Unit
  NoErrors key (t ∷ times) s =
      Succeeds (allow r c key t s).0 × NoErrors key times (allow r c key t s).1

  -- The times lie in one window.
  abbrev pub InWindow : ℕ → List ℕ → Type 0
  InWindow w [] = Unit
  InWindow w (t ∷ times) = (t / c.window ≡ w) × InWindow w times

  abbrev pub key_in : String → ℕ → String
  key_in key w = join ("rl:fixed" ∷ ":" ∷ key ∷ ":" ∷ show w ∷ [])

  allow-Counts :
      (key : String) (t w : ℕ) (s : Store)
      → t / c.window ≡ w
      → Counts (count s (key_in key w)) (key_in key w) (allow r c key t s)
  unfolding allow
  allow-Counts key t w s e =
      subst (λ k. Counts (count s k) k (allow r c key t s)) (ap (key_in key) e)
        (counted-Counts (redis_key c key t) s (incr (redis_key c key t) s) refl)

  passed-le :
      (key : String) (w : ℕ) (times : List ℕ) (s : Store)
      → InWindow w times
      → passed key times s + min (count s (key_in key w)) c.limit ≤ c.limit
  passed-le key w [] s h = omega arith
  passed-le key w (t ∷ times) s (h, hs) =
      omega (arith, (allow-Counts key t w s h).0, passed-le key w times (allow r c key t s).1 hs)

  passed-eq :
      (key : String) (w : ℕ) (times : List ℕ) (s : Store)
      → InWindow w times
      → NoErrors key times s
      → passed key times s + min (count s (key_in key w)) c.limit
        ≡ min (count s (key_in key w) + length times) c.limit
  passed-eq key w [] s h good = omega arith
  passed-eq key w (t ∷ times) s (h, hs) (here, good) =
      let (after, now) = (allow-Counts key t w s h).1 here in
      omega (arith, after, now, passed-eq key w times (allow r c key t s).1 hs good)

  -- Of the requests of a client in one window, at most `limit` are let through, errors or not and
  -- whatever was counted before.
  pub passed-le-limit :
      (key : String) (w : ℕ) (times : List ℕ) (s : Store)
      → InWindow w times
      → passed key times s ≤ c.limit
  passed-le-limit key w times s h = omega (arith, passed-le key w times s h)

  -- With a fresh count and no error, exactly the first `limit` requests of a window are let through,
  -- or all, if they are fewer.
  pub passed-fresh :
      (key : String) (w : ℕ) (times : List ℕ) (s : Store)
      → InWindow w times
      → count s (key_in key w) ≡ 0
      → NoErrors key times s
      → passed key times s ≡ min (length times) c.limit
  passed-fresh key w times s h fresh good = omega (arith, passed-eq key w times s h good)
