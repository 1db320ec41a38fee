-- ===== src/Api/Calls.antt =====
-- The exported calls of frontend/src/api.js, as data: the path and the options that each passes to
-- `request`. A body is the value that `JSON.stringify` is given.
use rate_x_rate_limiter_web.Base.{ℕ, String, Bool, true, false, Option, none, some, List, [], ◌∷◌}
use rate_x_rate_limiter_web.Text.{append, show}
use rate_x_rate_limiter_web.Model.{PolicyDraft, KeyDraft, NewRoute, RouteDraft}

pub data Call : Type 0 where
  get_stats get_timeline get_top_routes get_policies get_keys get_route_policies : Call
  create_policy : PolicyDraft → Call
  update_policy : String → PolicyDraft → Call
  delete_policy : String → Call
  create_key : KeyDraft → Call
  revoke_key : String → Call
  get_events : ℕ → Call
  create_route_policy : NewRoute → Call
  update_route_policy : String → RouteDraft → Call
  delete_route_policy : String → Call

pub data Body : Type 0 where
  policy : PolicyDraft → Body
  key : KeyDraft → Body
  new_route : NewRoute → Body
  route : RouteDraft → Body

-- The second argument of `request`; `fetch` sends GET where no method is given.
pub record Options : Type 0 where
  pub method : Option String
  pub headers : List (String × String)
  pub body : Option Body
  pub empty : Bool

-- The argument of `request` after the base of the API.
unfoldable pub path_of : Call → String
path_of get_stats = "/api/stats"
path_of get_timeline = "/api/stats/timeline"
path_of get_top_routes = "/api/stats/routes"
path_of get_policies = "/api/policies"
path_of (create_policy d) = "/api/policies"
path_of (update_policy id d) = append "/api/policies/" id
path_of (delete_policy id) = append "/api/policies/" id
path_of get_keys = "/api/keys"
path_of (create_key d) = "/api/keys"
path_of (revoke_key id) = append "/api/keys/" id
path_of (get_events limit) = append "/api/events?limit=" (show limit)
path_of get_route_policies = "/api/route-policies"
path_of (create_route_policy d) = "/api/route-policies"
path_of (update_route_policy id d) = append "/api/route-policies/" id
path_of (delete_route_policy id) = append "/api/route-policies/" id

-- `adminHeaders`, for the token that the build is given
abbrev pub admin_headers : String → List (String × String)
admin_headers token = ("Content-Type", "application/json") ∷ ("X-Admin-Token", token) ∷ []

abbrev plain : Options
plain = record { method = none; headers = []; body = none; empty = false }

abbrev reading : String → Options
reading token = record plain { headers = admin_headers token }

abbrev sending : String → String → Body → Options
sending token method body = record {
  method = some method;
  headers = admin_headers token;
  body = some body;
  empty = false;
}

abbrev deleting : String → Options
deleting token = record {
  method = some "DELETE";
  headers = admin_headers token;
  body = none;
  empty = true;
}

unfoldable pub options_of : String → Call → Options
options_of token get_stats = plain
options_of token get_timeline = plain
options_of token get_top_routes = plain
options_of token get_policies = reading token
options_of token (create_policy d) = sending token "POST" (policy d)
options_of token (update_policy id d) = sending token "PUT" (policy d)
options_of token (delete_policy id) = deleting token
options_of token get_keys = reading token
options_of token (create_key d) = sending token "POST" (key d)
options_of token (revoke_key id) = deleting token
options_of token (get_events limit) = reading token
options_of token get_route_policies = reading token
options_of token (create_route_policy d) = sending token "POST" (new_route d)
options_of token (update_route_policy id d) = sending token "PUT" (route d)
options_of token (delete_route_policy id) = deleting token
