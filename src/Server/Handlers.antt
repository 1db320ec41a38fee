-- ===== src/Server/Handlers.antt =====
-- internal/handler/policy.go, api_key.go, route_policy.go and events.go, over the services of
-- internal/service and the tables of the repositories: what each request of the dashboard is
-- answered, and what it changes. The statistics of internal/handler/stats.go are read from the
-- metrics library and are a part of the state here. `fault` is the error of a database that does
-- not answer; a list is read by one statement. An
-- identifier that is no UUID is a case of it.
pub mod Effects
use rate_x_rate_limiter_web.Base.{
  ℕ, String, Bool, true, false, ◌||◌, Option, none, some, List, [], ◌∷◌, map, Result, ok, err,
  ◌>>=◌, if◌then◌else◌,
}
use rate_x_rate_limiter_web.Text.{is_empty}
use rate_x_rate_limiter_web.Text.Numbers.{atoi, to_nat}
use rate_x_rate_limiter_web.Model.{
  Policy, PolicyDraft, ApiKey, CreatedKey, KeyDraft, RoutePolicy, RouteDraft, RequestEvent,
  RouteSummary, TimeBucket, Stats,
}
use rate_x_rate_limiter_web.Server.Policies.{validate_policy, validate_route}
use rate_x_rate_limiter_web.Server.Store.{
  Db, create_policy, update_policy, delete_policy, revoke_key, create_route, update_route,
  delete_route,
}
use rate_x_rate_limiter_web.Server.Store.Lookup.{list_keys, list_routes}
use rate_x_rate_limiter_web.Server.Accounts.{create}
use rate_x_rate_limiter_web.Server.Events.{Logged, recent, timeline, top_routes}
use rate_x_rate_limiter_web.Server.Router.{Handler}

-- The value that `c.JSON` is given with a success.
pub data Payload : Type 0 where
  policies : List Policy → Payload
  policy : Policy → Payload
  keys : List ApiKey → Payload
  created : CreatedKey → Payload
  routes : List RoutePolicy → Payload
  route : RoutePolicy → Payload
  events : List RequestEvent → Payload
  summaries : List RouteSummary → Payload
  buckets : List TimeBucket → Payload
  overview : Stats → Payload

-- `c.JSON` with a value, `c.JSON` with an error and perhaps a message, and `c.Status(204)`
pub data Reply : Type 0 where
  done : ℕ → Payload → Reply
  failed : ℕ → String → Option String → Reply
  no_content : Reply

pub record State : Type 0 where
  pub db : Db
  pub log : List Logged
  pub stats : Stats

-- What comes from outside with a request: the decoding of its body, the text of the error for a
-- field that is required, the demo user, random bytes, SHA-256, the database's errors, identifier and
-- moment, the moment in milliseconds, and the order by descending totals.
pub record Outside : Type 0 where
  pub parse_policy : String → Result PolicyDraft
  pub parse_key : String → Result KeyDraft
  pub parse_route : String → Result RouteDraft
  pub required : String
  pub fault : Option String
  pub user : Result String
  pub random : Result (List ℕ)
  pub sha256 : String → String
  pub id : String
  pub now : String
  pub clock : ℕ
  pub by_total : List RouteSummary → List RouteSummary

pub record Request : Type 0 where
  pub param : String
  pub limit : Option String
  pub body : String

-- A call of the database.
abbrev pub asked {ℓ} : {A : Type ℓ} → Option String → Result A × Db → Db → Result A × Db
asked none answer db = answer
asked (some e) answer db = (err e, db)

-- The reply to a result, with the status of a failure and of a success.
abbrev pub reply {ℓ} : {A : Type ℓ} → ℕ → ℕ → (A → Payload) → Result A → Reply
reply bad good payload (err e) = failed bad e none
reply bad good payload (ok a) = done good (payload a)

abbrev pub replied {ℓ} : {A : Type ℓ} → ℕ → ℕ → (A → Payload) → Result A × Db → Reply × Db
replied bad good payload (result, db) = (reply bad good payload result, db)

-- `ShouldBindJSON` with `binding:"required"`
abbrev pub bound_key : String → Result KeyDraft → Result KeyDraft
bound_key required (err e) = err e
bound_key required (ok d) = if is_empty d.name || is_empty d.policy_id then err required else ok d

abbrev pub in_use : String
in_use =
    "This policy is used by API keys or route policies. Reassign or delete those records before deleting the policy."

-- The only error that a database that answers gives to `Delete` is `ErrPolicyInUse`.
abbrev pub deleted : Option String → Result (Unit {0}) × Db → Db → Reply × Db
deleted (some e) result db = (failed 500 e none, db)
deleted none (ok _, after) db = (no_content, after)
deleted none (err e, after) db = (failed 409 "policy_in_use" (some in_use), after)

abbrev pub emptied : Option String → Db → Db → Reply × Db
emptied (some e) after db = (failed 500 e none, db)
emptied none after db = (no_content, after)

module _ (out : Outside) where
  abbrev listed {ℓ} : {A : Type ℓ} → (A → Payload) → A → Db → Reply × Db
  listed payload value db = replied 500 200 payload (asked out.fault (ok value, db) db)

  -- `Create` and `Update`, of what was bound and validated
  abbrev pub policy_created : Result PolicyDraft → Db → Reply × Db
  policy_created (err e) db = (failed 400 e none, db)
  policy_created (ok d) db =
      replied 400 201 policy (asked out.fault (create_policy out.id out.now d db) db)

  abbrev pub policy_updated : String → Result PolicyDraft → Db → Reply × Db
  policy_updated id (err e) db = (failed 400 e none, db)
  policy_updated id (ok d) db =
      replied 400 200 policy (asked out.fault (update_policy id out.now d db) db)

  abbrev pub route_created : Result RouteDraft → Db → Reply × Db
  route_created (err e) db = (failed 400 e none, db)
  route_created (ok d) db =
      replied 400 201 route (asked out.fault (create_route out.id out.now d db) db)

  abbrev pub route_updated : String → Result RouteDraft → Db → Reply × Db
  route_updated id (err e) db = (failed 400 e none, db)
  route_updated id (ok d) db =
      replied 400 200 route (asked out.fault (update_route id out.now d db) db)

  abbrev pub key_created : Result KeyDraft → Db → Reply × Db
  key_created (err e) db = (failed 400 e none, db)
  key_created (ok d) db = replied 400 201 created (
      asked out.fault (create out.sha256 out.user out.random out.id out.now d.name d.policy_id db)
        db)

  abbrev pub or_50 : Option String → String
  or_50 none = "50"
  or_50 (some t) = t

  abbrev recent_listed : Option String → State → Reply × Db
  recent_listed limit s =
      listed events
        (map (λ (e : Logged). e.event) (recent (to_nat (atoi (or_50 limit)).value) s.log)) s.db

  -- `PolicyHandler`, `APIKeyHandler`, `RoutePolicyHandler`, `EventHandler` and the overview; the
  -- other handlers are not for the dashboard.
  unfoldable pub handle : Handler → Request → State → Option (Reply × Db)
  handle Handler.list_policies r s = some (listed policies s.db.policies s.db)
  handle Handler.create_policy r s =
      some (policy_created (out.parse_policy r.body >>= validate_policy) s.db)
  handle Handler.update_policy r s =
      some (policy_updated r.param (out.parse_policy r.body >>= validate_policy) s.db)
  handle Handler.delete_policy r s = some (deleted out.fault (delete_policy r.param s.db) s.db)
  handle Handler.list_keys r s = some (listed keys (list_keys s.db) s.db)
  handle Handler.create_key r s =
      some (key_created (bound_key out.required (out.parse_key r.body)) s.db)
  handle Handler.delete_key r s = some (emptied out.fault (revoke_key r.param out.now s.db) s.db)
  handle Handler.list_routes r s = some (listed routes (list_routes s.db) s.db)
  handle Handler.create_route r s =
      some (route_created (out.parse_route r.body >>= validate_route) s.db)
  handle Handler.update_route r s =
      some (route_updated r.param (out.parse_route r.body >>= validate_route) s.db)
  handle Handler.delete_route r s = some (emptied out.fault (delete_route r.param s.db) s.db)
  handle Handler.recent_events r s = some (recent_listed r.limit s)
  handle Handler.top_routes r s =
      some (listed summaries (top_routes out.by_total out.clock s.log) s.db)
  handle Handler.timeline r s = some (listed buckets (timeline out.clock s.log) s.db)
  handle Handler.overview r s = some (done 200 (overview s.stats), s.db)
  handle _ r s = none
