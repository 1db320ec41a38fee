-- ===== src/Server/Router.antt =====
-- cmd/server/main.go: the table of routes, and which of them a request is for. A pattern is a whole
-- path, or a prefix that ends in "/" and the parameter `:id`, which is one part of the path that is
-- not empty. The router itself is the web framework's, and an interface here.
use Prim.Native.String.{[], ◌∷◌}
use rate_x_rate_limiter_web.Base.{
  String, ◌≡◌, keep, Bool, true, false, not, code, ◌&&◌, Option, none, some, List, ◌==◌,
  if◌then◌else◌,
}
use rate_x_rate_limiter_web.Text.{is_empty, same}

pub data Handler : Type 0 where
  health ready prometheus overview timeline top_routes : Handler
  list_policies create_policy update_policy delete_policy : Handler
  list_keys create_key delete_key recent_events : Handler
  list_routes create_route update_route delete_route demo_products : Handler

pub data Pattern : Type 0 where
  exact : String → Pattern
  with_id : String → Pattern

-- What stands between the router and the handler, besides recovery, logging and CORS.
pub data Guard : Type 0 where
  open_to_all admin_only rate_limited : Guard

pub record Route : Type 0 where
  pub method : String
  pub pattern : Pattern
  pub guard : Guard
  pub handler : Handler

abbrev open_route : String → Handler → Route
open_route p h = record { method = "GET"; pattern = exact p; guard = open_to_all; handler = h }

abbrev admin_route : String → Pattern → Handler → Route
admin_route m p h = record { method = m; pattern = p; guard = admin_only; handler = h }

abbrev limited_route : String → Handler → Route
limited_route p h = record { method = "GET"; pattern = exact p; guard = rate_limited; handler = h }

infixr 60 ◌then◌
abbrev ◌then◌ : Route → List Route → List Route
r then rs = List.◌∷◌ r rs

unfoldable pub routes : List Route
routes =
    open_route "/healthz" health
    then open_route "/readyz" ready
    then open_route "/metrics" prometheus
    then open_route "/api/stats" overview
    then open_route "/api/stats/timeline" timeline
    then open_route "/api/stats/routes" top_routes
    then admin_route "GET" (exact "/api/policies") list_policies
    then admin_route "POST" (exact "/api/policies") create_policy
    then admin_route "PUT" (with_id "/api/policies/") update_policy
    then admin_route "DELETE" (with_id "/api/policies/") delete_policy
    then admin_route "GET" (exact "/api/keys") list_keys
    then admin_route "POST" (exact "/api/keys") create_key
    then admin_route "DELETE" (with_id "/api/keys/") delete_key
    then admin_route "GET" (exact "/api/events") recent_events
    then admin_route "GET" (exact "/api/route-policies") list_routes
    then admin_route "POST" (exact "/api/route-policies") create_route
    then admin_route "PUT" (with_id "/api/route-policies/") update_route
    then admin_route "DELETE" (with_id "/api/route-policies/") delete_route
    then limited_route "/v1/products" demo_products
    then List.[]

-- The path of a request, without its query.
unfoldable pub url_path : String → String
url_path [] = []
url_path (c ∷ s) = let rest = url_path s in if code c == b'?' then [] else c ∷ rest

unfoldable pub has_slash : String → Bool
has_slash [] = false
has_slash (c ∷ s) = if code c == b'/' then true else has_slash s

-- The path without the prefix.
unfoldable pub strip : String → String → Option String
strip [] path = some path
strip (c ∷ p) [] = none
strip (c ∷ p) (d ∷ path) = if code c == code d then strip p path else none

abbrev one_part : Option String → Bool
one_part none = false
one_part (some id) = not (is_empty id) && not (has_slash id)

unfoldable pub matches : Pattern → String → Bool
unfolding same strip has_slash
matches (exact p) path = same p path
matches (with_id p) path = one_part (strip p path)

-- Whether a route is for requests of a method and a path.
unfoldable pub serves : String → String → Route → Bool
unfolding same matches
serves method path r = same r.method method && matches r.pattern path

-- The router of the web framework: where exactly one route of a table serves a request, it is the
-- one that is found.
pub record Engine : Type 0 where
  pub find : String → String → List Route → Option Route
  pub find-only :
      (method path : String) (rs : List Route) (r : Route)
      → keep (serves method path) rs ≡ List.◌∷◌ r List.[]
      → find method path rs ≡ some r
