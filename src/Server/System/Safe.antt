-- ===== src/Server/System/Safe.antt =====
-- What holds of the server in every state that it reaches.
use rate_x_rate_limiter_web.Base.{ℕ, ◌≤◌, String, Bool, Option, [], ◌∷◌, Result, arith, refl}
use rate_x_rate_limiter_web.Model.{Policy}
use rate_x_rate_limiter_web.Limiter.{Decision}
use rate_x_rate_limiter_web.Server.Store.Sound.{IsSound}
use rate_x_rate_limiter_web.Server.Store.Lookup.{find_policy}
use rate_x_rate_limiter_web.Server.Store.Runs.{execute-IsSound}
use rate_x_rate_limiter_web.Server.Accounts.Identified.{lookup_key}
use rate_x_rate_limiter_web.Server.Gate.{Request}
use rate_x_rate_limiter_web.Server.Gate.Counts.{Agree, ended, serve_lem}
use rate_x_rate_limiter_web.Server.System.{State, ask, Step, administers, asks, Reach, here, later}

-- The tables keep their promises, no request is counted as ended that was not counted when it came,
-- and the counters are those of the events.
abbrev pub IsSafe : {S : Type 0} → State S → Type 0
IsSafe s = IsSound s.db × ((ended s.world.totals ≤ s.world.totals.requests) × Agree s.world.totals)

module _ (sha256 : String → String) (is_later : String → String → Bool) {S : Type 0}
    (allow : ℕ → Option Policy → String → S → Result Decision × S) (fail_open : Bool)
    (next_status : Request → ℕ) where
  Step-IsSafe :
      (s t : State S) → Step sha256 is_later allow fail_open next_status s t → IsSafe s → IsSafe t
  unfolding ask
  Step-IsSafe s t (administers statement) (sound, counts) =
      (execute-IsSound s.db statement sound, counts)
  Step-IsSafe s t (asks at r) (sound, (le, agree)) =
      let (n, e, a) =
        serve_lem (lookup_key sha256 is_later at.text s.db) (find_policy s.db) (allow at.ms)
          fail_open next_status s.world (r ∷ []) _ refl in
      (sound, (omega (arith, n, e, le), a agree))

  -- From a state where the tables keep their promises and the counters agree, in every state that
  -- any statements and requests reach, in any order, whatever the limiters and handlers answer, the
  -- tables keep their promises, the counters of allowed, rejected and failed requests add up to no
  -- more than the requests, and those of allowed and rejected ones are those of the events.
  pub Reach-IsSafe :
      (s t : State S) → Reach sha256 is_later allow fail_open next_status s t → IsSafe s → IsSafe t
  Reach-IsSafe s t here h = h
  Reach-IsSafe s t (later reach step) h = Step-IsSafe _ t step (Reach-IsSafe s _ reach h)
