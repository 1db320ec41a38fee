-- ===== src/Server/System/Created.antt =====
-- Requests with the secret of a key that was created.
use rate_x_rate_limiter_web.Base.{
  ℕ, ◌≡◌, refl, String, Bool, ◌&&◌, Option, none, Result, ok, err, List, [], ◌∷◌, find, str_eq,
  arith, if◌then◌else◌,
}
use rate_x_rate_limiter_web.Text.{append}
use rate_x_rate_limiter_web.Model.{Policy, ApiKey, RoutePolicy, CreatedKey}
use rate_x_rate_limiter_web.Limiter.{Decision}
use rate_x_rate_limiter_web.Server.Auth.{header}
use rate_x_rate_limiter_web.Server.Policies.{to_upper}
use rate_x_rate_limiter_web.Server.Store.{Db}
use rate_x_rate_limiter_web.Server.Store.Lookup.{policy_of, find_policy, is_for, policy_of_route}
use rate_x_rate_limiter_web.Server.Accounts.{create}
use rate_x_rate_limiter_web.Server.Accounts.Identified.{lookup_key, identity_of, identify-create}
use rate_x_rate_limiter_web.Server.Gate.{
  Request, route_of, World, policy_for, limiter_key, identify, Identity,
}
use rate_x_rate_limiter_web.Server.Gate as Gate
use rate_x_rate_limiter_web.Server.Gate.Passing.{
  Ends, gate-Ends, lets_through, foremost, or_none, policy_for-foremost, limiter_key-append,
}
use rate_x_rate_limiter_web.Server.System.{State, Moment, ask}

-- The policy of the first row that is enabled for the method, in capital letters, and the route.
abbrev pub set_for : Db → String → String → List RoutePolicy → Option Policy
set_for db method route [] = none
set_for db method route (row ∷ rows) =
    let rest = set_for db method route rows in
    if row.enabled && str_eq row.method (to_upper method) && str_eq row.route_pattern route
    then policy_of row.policy_id db
    else rest

found-set_for :
    (db : Db) (method route : String) (rows : List RoutePolicy)
    → policy_of_route db (find (is_for method route) rows) ≡ set_for db method route rows
found-set_for db method route [] = refl
found-set_for db method route (row ∷ rows) = ground (arith, found-set_for db method route rows)

find_policy-set_for :
    (db : Db) (method route : String)
    → or_none (find_policy db method route) ≡ set_for db method route db.routes
unfolding find_policy
find_policy-set_for db method route = found-set_for db method route db.routes

module _ (sha256 : String → String) (is_later : String → String → Bool) {S : Type 0}
    (allow : ℕ → Option Policy → String → S → Result Decision × S) (fail_open : Bool)
    (next_status : Request → ℕ) where
  -- What the limiter is asked for a request with a key that was created: for the policy that the
  -- first row of the routes which is enabled for the method and the route has in the tables, or else
  -- for the one that was chosen for the key, under "key:", the identifier of the key, ":" and the
  -- route.
  abbrev pub answer_for : String → Option Policy → Db → Moment → Request → S → Result Decision × S
  answer_for id chosen db at r s =
      allow at.ms (foremost (set_for db r.method (route_of r) db.routes ∷ chosen ∷ []))
        (append "key:" (append id (append ":" (route_of r)))) s

  asked-answer_for :
      (id secret : String) (chosen : Option Policy) (db : Db) (at : Moment) (r : Request) (s : S)
      → allow at.ms
          (policy_for (find_policy db) r (identity_of id secret chosen))
          (limiter_key r (identity_of id secret chosen))
          s
        ≡ answer_for id chosen db at r s
  asked-answer_for id secret chosen db at r s =
      rw
        (
          policy_for-foremost (find_policy db) r (identity_of id secret chosen),
          find_policy-set_for db r.method (route_of r),
          limiter_key-append r (identity_of id secret chosen),
        )
        refl

  -- The end of a request whose sender is known.
  Ends-known :
      (find_key : String → Result (ApiKey × Policy))
      → (policy : String → String → Result (Option Policy)) (ms : ℕ) (r : Request)
      → (i : Identity) (found : Result Identity) (w : World S) (q : Gate.Answer × World S)
      → found ≡ ok i
      → Ends find_key policy (allow ms) fail_open next_status r w q found
      → (q.0.passed
          ≡ lets_through fail_open
              (allow ms (policy_for policy r i) (limiter_key r i) w.limiters).0)
        × (q.1.limiters ≡ (allow ms (policy_for policy r i) (limiter_key r i) w.limiters).1)
  Ends-known find_key policy ms r i (err e) w q known ends = absurd (cc)
  Ends-known find_key policy ms r i (ok j) w q known (passes, why, left) =
      let same : j ≡ i = cc known in rw (← same) (passes, left)

  -- After the administration has created a key, a request with its secret asks the limiter once, at any
  -- moment, for the policy of its route or else for the one that was chosen for the key, under the
  -- identifier of the key; it gets past exactly if the limiter allows it, or fails while the
  -- middleware is open on failures.
  pub ask-created :
      (user : Result String) (random : Result (List ℕ)) (id now name policy_id : String)
      (s : State S) (after : Db) (c : CreatedKey) (at : Moment) (r : Request)
      → create sha256 user random id now name policy_id s.db ≡ (ok c, after)
      → header "X-API-Key" r.headers ≡ c.key
      → ((ask sha256 is_later allow fail_open next_status (record s { db = after }) at r).0.passed
          ≡ lets_through fail_open
              (answer_for id (policy_of policy_id s.db) after at r s.world.limiters).0)
        × ((ask sha256 is_later allow fail_open next_status
              (record s { db = after })
              at
              r).1.limiters
            ≡ (answer_for id (policy_of policy_id s.db) after at r s.world.limiters).1)
  unfolding ask
  ask-created user random id now name policy_id s after c at r e sent =
      let known =
        identify-create sha256 is_later user random id now at.text name policy_id s.db after c r e
          sent in
      let same_question =
        asked-answer_for id c.key (policy_of policy_id s.db) after at r s.world.limiters in
      rw (← same_question) (
        Ends-known (lookup_key sha256 is_later at.text after) (find_policy after) at.ms r
          (identity_of id c.key (policy_of policy_id s.db)) _ s.world
          (ask sha256 is_later allow fail_open next_status (record s { db = after }) at r) known
          (gate-Ends (lookup_key sha256 is_later at.text after) (find_policy after) (allow at.ms)
            fail_open next_status r s.world))
