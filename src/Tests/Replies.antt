-- ===== src/Tests/Replies.antt =====
-- Limiters over a Redis that fails by a plan.
use rate_x_rate_limiter_web.Base.{
  ℕ, ◌≡◌, ◌⊎◌, inl, inr, refl, true, Option, none, List, [], ◌∷◌, Result, ok, err, is_err, arith,
  ◌==◌, if◌then◌else◌,
}
use rate_x_rate_limiter_web.Text.{show}
use rate_x_rate_limiter_web.Text.Numbers.{pos, negsuc, scan}
use rate_x_rate_limiter_web.Limiter.{Decision}
use rate_x_rate_limiter_web.Limiter.Token as Token
use rate_x_rate_limiter_web.Limiter.Token.{decision_of, rate_config, script}
use rate_x_rate_limiter_web.Limiter.Sliding as Sliding
use rate_x_rate_limiter_web.Limiter.Sliding.{SortedSet}
use rate_x_rate_limiter_web.Limiter.Replies.{
  Value, int64, text, values_of, parse_script_result, to_int,
}
use rate_x_rate_limiter_web.Limiter.Replies.Scan.{sscanf, skip_space, leading_digits}
use rate_x_rate_limiter_web.Limiter.Replies.Values.{parse-StandsFor}
use rate_x_rate_limiter_web.Limiter.Replies.Bucket.{after_script}
use rate_x_rate_limiter_web.Limiter.Replies.Bucket as Bucket
use rate_x_rate_limiter_web.Limiter.Replies.Failures.{granted}
use rate_x_rate_limiter_web.Limiter.Replies.Set as Set
use rate_x_rate_limiter_web.Limiter.Replies.Set.{passed, passed-le}
use rate_x_rate_limiter_web.Tests.Limiters.{two, scored}

sscanf_test : sscanf "  -12 tokens" ≡ ok (negsuc 11)
unfolding sscanf skip_space leading_digits scan
sscanf_test = refl

abbrev third : Decision
third = record { allowed = true; remaining = 7; retry_after = 0; limit = 10; reset_after = 60 }

parse-StandsFor_example :
    parse_script_result
      (int64 (pos 1) ∷ text (show 7) ∷ int64 (pos 0) ∷ text (show 10) ∷ text "more" ∷ [])
      60
    ≡ ok third
parse-StandsFor_example =
    parse-StandsFor third (int64 (pos 1)) (text (show 7)) (int64 (pos 0)) (text (show 10))
      (text "more" ∷ []) (inl refl) (inr (refl, omega arith)) (inl refl) (inr (refl, omega arith))

-- What happens to a call.
pub data Fate : Type 0 where
  fine : Fate
  lost : Fate
  down : Fate

-- What is stored, and the fates of the calls to come; none is left is fine.
abbrev eval_at :
    {S : Type 0} → (List Value) × S → S → List Fate → Result (List Value) × (S × List Fate)
eval_at (values, after) s [] = (ok values, (after, []))
eval_at (values, after) s (fine ∷ fates) = (ok values, (after, fates))
eval_at (values, after) s (lost ∷ fates) = (err "timeout", (after, fates))
eval_at (values, after) s (down ∷ fates) = (err "refused", (s, fates))

pub eval_at-ok :
    {S : Type 0} (values : List Value) (after s : S) (fates : List Fate) (got : List Value)
    → (eval_at (values, after) s fates).0 ≡ ok got
    → (got ≡ values) × ((eval_at (values, after) s fates).1.0 ≡ after)
eval_at-ok values after s [] got e = (cc, refl)
eval_at-ok values after s (fine ∷ fates) got e = (cc, refl)
eval_at-ok values after s (lost ∷ fates) got e = absurd (cc)
eval_at-ok values after s (down ∷ fates) got e = absurd (cc)

pub eval_at-err :
    {S : Type 0} (values : List Value) (after s : S) (fates : List Fate)
    → is_err (eval_at (values, after) s fates).0 ≡ true
    → ((eval_at (values, after) s fates).1.0 ≡ s) ⊎ ((eval_at (values, after) s fates).1.0 ≡ after)
eval_at-err values after s [] e = absurd (cc)
eval_at-err values after s (fine ∷ fates) e = absurd (cc)
eval_at-err values after s (lost ∷ fates) e = inr refl
eval_at-err values after s (down ∷ fates) e = inl refl

abbrev answered : Token.Config → ℕ → Option Token.Bucket → (List Value) × Option Token.Bucket
answered c now hash =
    (values_of (decision_of c (script (rate_config c) now hash)), after_script c now hash)

abbrev pub planned : Bucket.Redis
planned = record {
  Store = Option Token.Bucket × List Fate;
  hash = λ s. s.0;
  eval = λ c now s. eval_at (answered c now s.0) s.0 s.1;
  eval-ok =
      λ c now s values e. eval_at-ok (answered c now s.0).0 (answered c now s.0).1 s.0 s.1 values e;
  eval-err = λ c now s e. eval_at-err (answered c now s.0).0 (answered c now s.0).1 s.0 s.1 e;
}

-- The reply to the second call is lost, and its token with it.
lost_test : granted planned two (none, fine ∷ lost ∷ []) (0 ∷ 1 ∷ 2 ∷ []) ≡ 1
unfolding Bucket.allow Token.script Token.refilled Token.take_token parse_script_result to_int
lost_test = refl

-- The fate of a call by its moment.
abbrev fate_at : ℕ → List Fate
fate_at now = if now == 5 then lost ∷ [] else if now == 6 then down ∷ [] else []

abbrev answered_set : Sliding.Config → ℕ → List ℕ → (List Value) × List ℕ
answered_set c now s =
    (values_of (Sliding.allow scored c now s).0, (Sliding.allow scored c now s).1)

abbrev pub planned_set : Set.Redis scored
planned_set = record {
  eval = λ c now s. let r = eval_at (answered_set c now s) s (fate_at now) in (r.0, r.1.0);
  eval-ok = λ c now s values e.
      eval_at-ok (answered_set c now s).0 (answered_set c now s).1 s (fate_at now) values e;
  eval-err =
      λ c now s e. eval_at-err (answered_set c now s).0 (answered_set c now s).1 s (fate_at now) e;
}

abbrev three : Sliding.Config
three = record { limit = 3; window = 1000 }

passed_test : passed scored planned_set three [] (4 ∷ 5 ∷ 6 ∷ 7 ∷ 8 ∷ []) ≡ 4 ∷ 7 ∷ []
unfolding Set.allow Sliding.allow Sliding.trimmed Sliding.decide parse_script_result to_int
passed_test = refl
