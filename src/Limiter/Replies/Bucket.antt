-- ===== src/Limiter/Replies/Bucket.antt =====
-- The token bucket behind a Redis that may fail: before the script has run, or after, when the reply
-- is lost.
use rate_x_rate_limiter_web.Base.{
  ℕ, ◌≡◌, ◌⊎◌, inl, inr, refl, true, false, Option, List, Result, ok, err, is_err, Bool-cases, ◌==◌,
  if◌then◌else◌,
}
use rate_x_rate_limiter_web.Limiter.{Decision}
use rate_x_rate_limiter_web.Limiter.Token.{
  Config, script, stored, rate_config, kept, decision_of, full, refilled, take_token,
}
use rate_x_rate_limiter_web.Limiter.Token as Token
use rate_x_rate_limiter_web.Limiter.Replies.{Value, parsed, values_of}
use rate_x_rate_limiter_web.Limiter.Replies.Values.{parse-values_of}

-- What is stored under the limiter's key after the script has run.
abbrev pub after_script : Config → ℕ → Option Token.Bucket → Option Token.Bucket
after_script c now hash = kept c (script (rate_config c) now hash).bucket

-- EVAL of the script for one key. The reply, where there is one, is the script's; a call that fails
-- has run the script or not.
pub record Redis : Type 1 where
  pub Store : Type 0
  pub hash : Store → Option Token.Bucket
  pub eval : Config → ℕ → Store → Result (List Value) × Store
  pub eval-ok :
      (c : Config) (now : ℕ) (s : Store) (values : List Value)
      → (eval c now s).0 ≡ ok values
      → (values ≡ values_of (decision_of c (script (rate_config c) now (hash s))))
        × (hash (eval c now s).1 ≡ after_script c now (hash s))
  pub eval-err :
      (c : Config) (now : ℕ) (s : Store)
      → is_err (eval c now s).0 ≡ true
      → (hash (eval c now s).1 ≡ hash s) ⊎ (hash (eval c now s).1 ≡ after_script c now (hash s))

module _ (r : Redis) where
  open r use {Store, hash, eval, eval-ok, eval-err}

  -- `Allow`
  unfoldable pub allow : Config → ℕ → Store → Result Decision × Store
  allow c now s =
      if c.capacity == 0
      then (
        ok (record {
          allowed = false;
          remaining = 0;
          retry_after = 1;
          limit = c.capacity;
          reset_after = 0;
        }),
        s,
      )
      else parsed c.window (eval c now s)

  -- `Allow` answers what the script decides, or fails as the call does; whatever it answers, the
  -- bucket is as before or as the script leaves it.
  abbrev pub Answers : Config → ℕ → Store → Result Decision × Store → Type 0
  Answers c now s (ok d, after) =
      (d ≡ (Token.allow c now (hash s)).0) × (hash after ≡ (Token.allow c now (hash s)).1)
  Answers c now s (err e, after) =
      (hash after ≡ hash s) ⊎ (hash after ≡ (Token.allow c now (hash s)).1)

  answers-parsed :
      (c : Config) (now : ℕ) (s : Store) (reply : Result (List Value))
      → (c.capacity == 0) ≡ false
      → (eval c now s).0 ≡ reply
      → Answers c now s (parsed c.window (reply, (eval c now s).1))
  unfolding Token.allow
  answers-parsed c now s (err e) room q = rw room (eval-err c now s (rw q refl))
  answers-parsed c now s (ok values) room q =
      let (v, h) = eval-ok c now s values q in
      rw (v, parse-values_of (decision_of c (script (rate_config c) now (hash s))), room) (refl, h)

  pub allow-Answers : (c : Config) (now : ℕ) (s : Store) → Answers c now s (allow c now s)
  unfolding allow
  allow-Answers c now s = elim (Bool-cases (c.capacity == 0)) [
    | inl none_left ↦ rw none_left (unfold Token.allow in rw none_left (refl, refl))
    | inr room ↦ rw room (answers-parsed c now s (eval c now s).0 room refl)
  ]
