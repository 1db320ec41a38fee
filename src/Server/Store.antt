-- ===== src/Server/Store.antt =====
-- The tables that the administration changes (migrations/001_init.sql and
-- 002_observability_and_routes.sql), newest row first, and the statements of internal/repository. The
-- identifier and the moment that the database gives to a row are arguments. A statement that breaks
-- a constraint of the tables (unique names, hashes and routes, positive numbers, a policy that is
-- there) is an error and changes nothing. The lengths of columns are left out. A revoked key keeps
-- its row. The name of a policy is not stored with a key or a route: the lists join it.
pub mod Lookup
pub mod Distinct
pub mod References
pub mod Sound
pub mod Runs
pub mod Revoked
use rate_x_rate_limiter_web.Base.{
  ℕ, ◌+◌, String, Bool, true, not, ◌&&◌, ◌||◌, Option, some, none, List, [], ◌∷◌, keep, any, find,
  length, map, Result, ok, err, str_eq, ltb, if◌then◌else◌,
}
use rate_x_rate_limiter_web.Model.{Policy, PolicyDraft, ApiKey, RoutePolicy, RouteDraft}
use rate_x_rate_limiter_web.Server.Policies.{is_supported, to_upper}

pub record Db : Type 0 where
  pub policies : List Policy
  pub keys : List ApiKey
  pub routes : List RoutePolicy

abbrev pub has_policy : String → Db → Bool
has_policy id db = any (λ (p : Policy). str_eq p.id id) db.policies

-- The checks of a row of `rate_limit_policies`.
abbrev pub is_storable : PolicyDraft → Bool
is_storable d =
    is_supported d.algorithm
    && ltb 0 d.request_limit
    && ltb 0 d.window_seconds
    && ltb 0 d.burst_capacity

-- `PolicyRepository.Create`
abbrev pub policy_row : String → String → PolicyDraft → Policy
policy_row id now d = record {
  id = id;
  name = d.name;
  algorithm = d.algorithm;
  request_limit = d.request_limit;
  window_seconds = d.window_seconds;
  burst_capacity = d.burst_capacity;
  created_at = now;
  updated_at = now;
}

abbrev pub takes_policy : String → String → Policy → Bool
takes_policy id name p = str_eq p.id id || str_eq p.name name

unfoldable pub create_policy : String → String → PolicyDraft → Db → Result Policy × Db
create_policy id now d db =
    if not (is_storable d)
    then (err "new row violates a check constraint", db)
    else if any (takes_policy id d.name) db.policies
    then (err "duplicate key value violates unique constraint", db)
    else (ok (policy_row id now d), record db { policies = policy_row id now d ∷ db.policies })

-- `PolicyRepository.Update`
abbrev updated_policy : String → PolicyDraft → Policy → Policy
updated_policy now d p = record p {
  name = d.name;
  algorithm = d.algorithm;
  request_limit = d.request_limit;
  window_seconds = d.window_seconds;
  burst_capacity = d.burst_capacity;
  updated_at = now;
}

abbrev replaced_policy : String → String → PolicyDraft → Policy → Policy
replaced_policy id now d p = if str_eq p.id id then updated_policy now d p else p

abbrev other_has_name : String → String → Policy → Bool
other_has_name id name p = not (str_eq p.id id) && str_eq p.name name

abbrev update_found : String → String → PolicyDraft → Db → Option Policy → Result Policy × Db
update_found id now d db none = (err "no rows in result set", db)
update_found id now d db (some p) =
    if not (is_storable d)
    then (err "new row violates a check constraint", db)
    else if any (other_has_name id d.name) db.policies
    then (err "duplicate key value violates unique constraint", db)
    else (
      ok (updated_policy now d p),
      record db { policies = map (replaced_policy id now d) db.policies },
    )

unfoldable pub update_policy : String → String → PolicyDraft → Db → Result Policy × Db
update_policy id now d db =
    update_found id now d db (find (λ (p : Policy). str_eq p.id id) db.policies)

-- The two counts of `Delete`: keys, revoked or not, and route policies with the policy.
unfoldable pub usage_count : String → Db → ℕ
usage_count id db =
    length (keep (λ (k : ApiKey). str_eq k.policy_id id) db.keys)
    + length (keep (λ (r : RoutePolicy). str_eq r.policy_id id) db.routes)

-- `PolicyRepository.Delete`, with the error that `ErrPolicyInUse` is.
unfoldable pub delete_policy : String → Db → Result (Unit {0}) × Db
delete_policy id db =
    if ltb 0 (usage_count id db)
    then (err "policy is used by api keys or route policies", db)
    else (ok tt, record db { policies = keep (λ (p : Policy). not (str_eq p.id id)) db.policies })

-- `APIKeyRepository.Revoke` at a moment.
abbrev revoked : String → String → ApiKey → ApiKey
revoked id now k = if str_eq k.id id then record k { revoked_at = some now } else k

unfoldable pub revoke_key : String → String → Db → Db
revoke_key id now db = record db { keys = map (revoked id now) db.keys }

-- `RoutePolicyRepository.Delete`
unfoldable pub delete_route : String → Db → Db
delete_route id db = record db {
  routes = keep (λ (r : RoutePolicy). not (str_eq r.id id)) db.routes;
}

-- `APIKeyRepository.Create`, for a key that the service made
abbrev pub takes_key : ApiKey → ApiKey → Bool
takes_key k row = str_eq row.id k.id || str_eq row.key_hash k.key_hash

unfoldable pub create_key : ApiKey → Db → Result ApiKey × Db
create_key k db =
    if not (has_policy k.policy_id db)
    then (err "insert violates foreign key constraint", db)
    else if any (takes_key k) db.keys
    then (err "duplicate key value violates unique constraint", db)
    else (ok k, record db { keys = k ∷ db.keys })

-- `RoutePolicyRepository.Create`
abbrev route_row : String → String → RouteDraft → RoutePolicy
route_row id now d = record {
  id = id;
  method = to_upper d.method;
  route_pattern = d.route_pattern;
  policy_id = d.policy_id;
  policy_name = "";
  enabled = d.enabled;
  created_at = now;
  updated_at = now;
}

abbrev takes_route : String → RouteDraft → RoutePolicy → Bool
takes_route id d r =
    str_eq r.id id
    || (str_eq r.method (to_upper d.method) && str_eq r.route_pattern d.route_pattern)

unfoldable pub create_route : String → String → RouteDraft → Db → Result RoutePolicy × Db
create_route id now d db =
    if not (has_policy d.policy_id db)
    then (err "insert violates foreign key constraint", db)
    else if any (takes_route id d) db.routes
    then (err "duplicate key value violates unique constraint", db)
    else (ok (route_row id now d), record db { routes = route_row id now d ∷ db.routes })

-- `RoutePolicyRepository.Update`
abbrev updated_route : String → RouteDraft → RoutePolicy → RoutePolicy
updated_route now d r = record r {
  method = to_upper d.method;
  route_pattern = d.route_pattern;
  policy_id = d.policy_id;
  enabled = d.enabled;
  updated_at = now;
}

abbrev replaced_route : String → String → RouteDraft → RoutePolicy → RoutePolicy
replaced_route id now d r = if str_eq r.id id then updated_route now d r else r

abbrev other_has_route : String → RouteDraft → RoutePolicy → Bool
other_has_route id d r =
    not (str_eq r.id id)
    && (str_eq r.method (to_upper d.method) && str_eq r.route_pattern d.route_pattern)

abbrev update_route_found :
    String → String → RouteDraft → Db → Option RoutePolicy → Result RoutePolicy × Db
update_route_found id now d db none = (err "no rows in result set", db)
update_route_found id now d db (some r) =
    if not (has_policy d.policy_id db)
    then (err "update violates foreign key constraint", db)
    else if any (other_has_route id d) db.routes
    then (err "duplicate key value violates unique constraint", db)
    else (
      ok (updated_route now d r),
      record db { routes = map (replaced_route id now d) db.routes },
    )

unfoldable pub update_route : String → String → RouteDraft → Db → Result RoutePolicy × Db
update_route id now d db =
    update_route_found id now d db (find (λ (r : RoutePolicy). str_eq r.id id) db.routes)
