-- ===== src/Server/Store/Lookup.antt =====
-- The queries of internal/repository that join a policy: the lists of keys and route policies,
-- `FindByHash` and `FindPolicy`. Whether a moment is later than another one is an argument.
use rate_x_rate_limiter_web.Base.{
  String, Bool, true, ◌&&◌, Option, some, none, List, [], ◌∷◌, find, Result, ok, err, str_eq,
}
use rate_x_rate_limiter_web.Model.{Policy, ApiKey, RoutePolicy}
use rate_x_rate_limiter_web.Server.Policies.{to_upper}
use rate_x_rate_limiter_web.Server.Store.{Db}

-- The policy with an identifier.
unfoldable pub policy_of : String → Db → Option Policy
policy_of id db = find (λ (p : Policy). str_eq p.id id) db.policies

abbrev joined : Option Policy → ApiKey → List ApiKey → List ApiKey
joined none k keys = keys
joined (some p) k keys = record k { policy_name = p.name } ∷ keys

abbrev joined_keys : Db → List ApiKey → List ApiKey
joined_keys db [] = []
joined_keys db (k ∷ keys) = joined (policy_of k.policy_id db) k (joined_keys db keys)

-- `APIKeyRepository.List`
unfoldable pub list_keys : Db → List ApiKey
unfolding policy_of
list_keys db = joined_keys db db.keys

abbrev joined_route : Option Policy → RoutePolicy → List RoutePolicy → List RoutePolicy
joined_route none r routes = routes
joined_route (some p) r routes = record r { policy_name = p.name } ∷ routes

abbrev joined_routes : Db → List RoutePolicy → List RoutePolicy
joined_routes db [] = []
joined_routes db (r ∷ routes) = joined_route (policy_of r.policy_id db) r (joined_routes db routes)

-- `RoutePolicyRepository.List`
unfoldable pub list_routes : Db → List RoutePolicy
unfolding policy_of
list_routes db = joined_routes db db.routes

-- `RoutePolicyRepository.FindPolicy`: at most one row has the method and the pattern.
abbrev pub is_for : String → String → RoutePolicy → Bool
is_for method pattern r =
    r.enabled && (str_eq r.method (to_upper method) && str_eq r.route_pattern pattern)

abbrev pub policy_of_route : Db → Option RoutePolicy → Option Policy
policy_of_route db none = none
policy_of_route db (some r) = policy_of r.policy_id db

unfoldable pub find_policy : Db → String → String → Result (Option Policy)
unfolding policy_of
find_policy db method pattern = ok (policy_of_route db (find (is_for method pattern) db.routes))

module _ (is_later : String → String → Bool) where
  abbrev no_revocation : Option String → Bool
  no_revocation none = true
  no_revocation (some at) = Bool.false

  abbrev not_expired : String → Option String → Bool
  not_expired now none = true
  not_expired now (some at) = is_later at now

  abbrev pub is_active : String → String → ApiKey → Bool
  is_active now hash k =
      str_eq k.key_hash hash && (no_revocation k.revoked_at && not_expired now k.expires_at)

  abbrev with_policy : Db → Option ApiKey → Result (ApiKey × Policy)
  with_policy db none = err "no rows in result set"
  with_policy db (some k) = elim (policy_of k.policy_id db) [
    | none ↦ err "no rows in result set"
    | some p ↦ ok (record k { policy_name = p.name }, p)
  ]

  -- `APIKeyRepository.FindByHash`, at a moment
  unfoldable pub find_by_hash : String → Db → String → Result (ApiKey × Policy)
  unfolding policy_of
  find_by_hash now db hash = with_policy db (find (is_active now hash) db.keys)
