-- ===== src/Server/System.antt =====
-- The running server: the tables, and the counters and limiters of the rate limit middleware. It
-- goes on by a statement of the administration API or by a request to a protected route, in any
-- order, as cmd/server/main.go puts the parts together. A request looks its key up by its hash and
-- its route's policy in the tables as they are then. `allow` answers for a policy at a moment.
pub mod Safe
pub mod Revoked
pub mod Created
use rate_x_rate_limiter_web.Base.{ℕ, String, Bool, Option, Result}
use rate_x_rate_limiter_web.Model.{Policy, ApiKey}
use rate_x_rate_limiter_web.Limiter.{Decision}
use rate_x_rate_limiter_web.Server.Store.{Db}
use rate_x_rate_limiter_web.Server.Store.Lookup.{find_policy}
use rate_x_rate_limiter_web.Server.Store.Runs.{Statement, execute}
use rate_x_rate_limiter_web.Server.Accounts.Identified.{lookup_key}
use rate_x_rate_limiter_web.Server.Gate.{Request, Answer, World, gate}

pub record State (S : Type 0) : Type 0 where
  pub db : Db
  pub world : World S

-- A moment, as the database and as the limiters tell it.
pub record Moment : Type 0 where
  pub text : String
  pub ms : ℕ

module _ (sha256 : String → String) (is_later : String → String → Bool) {S : Type 0}
    (allow : ℕ → Option Policy → String → S → Result Decision × S) (fail_open : Bool)
    (next_status : Request → ℕ) where
  -- A request at a moment, over the tables.
  unfoldable pub ask : State S → Moment → Request → Answer × World S
  ask s at r =
      gate (lookup_key sha256 is_later at.text s.db) (find_policy s.db) (allow at.ms) fail_open
        next_status r s.world

  pub data Step : State S → State S → Type 0 where
    administers :
        {s : State S} (statement : Statement) → Step s (record s { db = execute s.db statement })
    asks : {s : State S} (at : Moment) (r : Request) → Step s (record s { world = (ask s at r).1 })

  pub data Reach (s : State S) : State S → Type 0 where
    here : Reach s s
    later : {t u : State S} → Reach s t → Step t u → Reach s u
