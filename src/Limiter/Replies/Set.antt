-- ===== src/Limiter/Replies/Set.antt =====
-- The sliding window behind a Redis that may fail: `Allow` of internal/limiter/sliding_window.go.
use rate_x_rate_limiter_web.Base.{
  ℕ, ◌+◌, ◌/◌, ◌≤◌, ◌≡◌, ◌⊎◌, inl, inr, refl, Bool, true, false, List, [], ◌∷◌, Result, ok, err,
  is_err, Bool-cases, arith, if◌then◌else◌,
}
use rate_x_rate_limiter_web.Limiter.{Decision}
use rate_x_rate_limiter_web.Limiter.Sliding.{SortedSet, Config, decide, trimmed}
use rate_x_rate_limiter_web.Limiter.Sliding as Sliding
use rate_x_rate_limiter_web.Limiter.Times.{Follows, last, le-last}
use rate_x_rate_limiter_web.Limiter.Sliding.Spec.{in_use, in_use_mono, admit, admit-le}
use rate_x_rate_limiter_web.Limiter.Sliding.Refines.{allowed-allow, allow-StandsFor}
use rate_x_rate_limiter_web.Limiter.Replies.{Value, parsed, values_of}
use rate_x_rate_limiter_web.Limiter.Replies.Values.{parse-values_of}

-- EVAL of the script for one key, over the commands that it calls. The reply, where there is one, is
-- the script's; a call that fails has run the script or not.
pub record Redis (z : SortedSet) : Type 0 where
  pub eval : Config → ℕ → z.Store → Result (List Value) × z.Store
  pub eval-ok :
      (c : Config) (now : ℕ) (s : z.Store) (values : List Value)
      → (eval c now s).0 ≡ ok values
      → (values ≡ values_of (Sliding.allow z c now s).0)
        × ((eval c now s).1 ≡ (Sliding.allow z c now s).1)
  pub eval-err :
      (c : Config) (now : ℕ) (s : z.Store)
      → is_err (eval c now s).0 ≡ true
      → ((eval c now s).1 ≡ s) ⊎ ((eval c now s).1 ≡ (Sliding.allow z c now s).1)

-- The request was let through.
abbrev pub lets : Result Decision → Bool
lets (ok d) = d.allowed
lets (err e) = false

module _ (z : SortedSet) (r : Redis z) (c : Config) where
  open z use {Store, scores}
  open r use {eval, eval-ok, eval-err}

  -- `Allow`
  unfoldable pub allow : ℕ → Store → Result Decision × Store
  allow now s = parsed c.window (eval c now s)

  -- The times of the requests that are let through, and the set after all of them.
  abbrev pub passed : Store → List ℕ → List ℕ
  passed s [] = []
  passed s (t ∷ times) =
      let rest = passed (allow t s).1 times in if lets (allow t s).0 then t ∷ rest else rest

  abbrev left : Store → List ℕ → Store
  left s [] = s
  left s (t ∷ times) = left (allow t s).1 times

  reset_after-allow :
      (now : ℕ) (s : Store) → (Sliding.allow z c now s).0.reset_after ≡ c.window / 1000
  unfolding Sliding.allow decide
  reset_after-allow now s = ground arith

  -- `Allow` answers what the script decides, or fails as the call does; whatever it answers, the
  -- set is as before or as the script leaves it.
  abbrev pub Answers : ℕ → Store → Result Decision × Store → Type 0
  Answers now s (ok d, after) =
      (d ≡ (Sliding.allow z c now s).0) × (after ≡ (Sliding.allow z c now s).1)
  Answers now s (err e, after) = (after ≡ s) ⊎ (after ≡ (Sliding.allow z c now s).1)

  answers-parsed :
      (now : ℕ) (s : Store) (reply : Result (List Value))
      → (eval c now s).0 ≡ reply
      → Answers now s (parsed c.window (reply, (eval c now s).1))
  answers-parsed now s (err e) q = eval-err c now s (rw q refl)
  answers-parsed now s (ok values) q =
      let (v, after) = eval-ok c now s values q in
      rw (v, ← reset_after-allow now s, parse-values_of (Sliding.allow z c now s).0) (refl, after)

  pub allow-Answers : (now : ℕ) (s : Store) → Answers now s (allow now s)
  unfolding allow
  allow-Answers now s = answers-parsed now s (eval c now s).0 refl

  -- Of the set after the script, as windows from then on see it.
  in_use-script :
      (now later : ℕ) (s : Store)
      → now ≤ later
      → in_use c later (scores (Sliding.allow z c now s).1)
        ≡ in_use c later (admit c (scores s) now)
  in_use-script now later s le = allow-StandsFor z c now s (scores s) (λ u k. refl) later le

  in_use-admit :
      (now later : ℕ) (past : List ℕ) → in_use c later past ≤ in_use c later (admit c past now)
  in_use-admit now later past = ground arith

  -- A call adds what it lets through, at least, and at most what the script admits.
  in_use-answer :
      (now later : ℕ) (s : Store) (answer : Result Decision × Store)
      → now ≤ later
      → Answers now s answer
      → (in_use c later (if lets answer.0 then now ∷ scores s else scores s)
          ≤ in_use c later (scores answer.1))
        × (in_use c later (scores answer.1) ≤ in_use c later (admit c (scores s) now))
  in_use-answer now later s (ok d, after) le (decided, kept) =
      let same = allowed-allow z c now s (scores s) (λ u k. refl) in
      rw (decided, kept, same, in_use-script now later s le) (omega arith, omega arith)
  in_use-answer now later s (err e, after) le (inl before) =
      rw before (omega arith, in_use-admit now later (scores s))
  in_use-answer now later s (err e, after) le (inr ran) =
      rw (ran, in_use-script now later s le) (in_use-admit now later (scores s), omega arith)

  in_use-left :
      (t now : ℕ) (s : Store) (times : List ℕ)
      → Follows t times
      → last t times ≤ now
      → in_use c t (scores s) ≤ c.limit
      → in_use c now (scores (left s times)) ≤ c.limit
  in_use-left t now s [] f l h = omega (arith, in_use_mono c t now (scores s) l)
  in_use-left t now s (u ∷ times) (le, f) l h = in_use-left u now (allow u s).1 times f l (
      omega (
        arith,
        (in_use-answer u u s (allow u s) (omega arith) (allow-Answers u s)).1,
        admit-le c t u (scores s) le h,
      ))

  in_use-swap :
      (now t : ℕ) (xs ys : List ℕ)
      → in_use c now (t ∷ xs) + in_use c now ys ≡ in_use c now xs + in_use c now (t ∷ ys)
  in_use-swap now t xs ys = ground arith

  passed-left :
      (t now : ℕ) (s : Store) (times : List ℕ)
      → Follows t times
      → last t times ≤ now
      → in_use c now (passed s times) + in_use c now (scores s)
        ≤ in_use c now (scores (left s times))
  passed-left t now s [] f l = omega arith
  passed-left t now s (u ∷ times) (le, f) l =
      let before : u ≤ now = omega (arith, le-last u times f) in
      let here = (in_use-answer u now s (allow u s) before (allow-Answers u s)).0 in
      let rest = passed-left u now (allow u s).1 times f l in
      elim (Bool-cases (lets (allow u s).0)) [
        | inl e ↦
            let here' = rw e at here in
            rw e (
              omega (arith, rest, here', in_use-swap now u (passed (allow u s).1 times) (scores s)))
        | inr e ↦ (let here' = rw e at here in rw e (omega (arith, rest, here')))
      ]

  -- Redis may fail at any call, before or after the script has run: of the requests at times that do
  -- not go back that `Allow` lets through, from a set on that has at most `limit` scores in the
  -- window, at any moment from the last one on at most `limit` lie in the window that ends then.
  pub passed-le :
      (t now : ℕ) (s : Store) (times : List ℕ)
      → Follows t times
      → last t times ≤ now
      → in_use c t (scores s) ≤ c.limit
      → in_use c now (passed s times) ≤ c.limit
  passed-le t now s times f l h =
      omega (arith, passed-left t now s times f l, in_use-left t now s times f l h)
