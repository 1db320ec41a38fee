-- ===== src/Contract/Service.antt =====
-- The dashboard's calls served: the router of cmd/server/main.go finds the route, the guard of
-- internal/middleware/auth.go lets the request through or not, the handler of internal/handler
-- replies, and `request` of frontend/src/api.js settles with what the dashboard gets. How a reply
-- becomes a response, and a body a value, are relations: the encodings are not in the repository.
pub mod Settles
pub mod Notice
pub mod Changes
pub mod Created
pub mod Runs
use rate_x_rate_limiter_web.Base.{
  ◌≡◌, ◌≢◌, refl, ◌⊎◌, inl, inr, ap, ◌+◌, ℕ, String, Bool, true, false, Option, none, some, List,
  Result, ok, err, arith, ltb, leb, if◌then◌else◌,
}
use rate_x_rate_limiter_web.Text.{is_empty, show}
use rate_x_rate_limiter_web.Api.{Json, Response, settle, is_ok}
use rate_x_rate_limiter_web.Api.Calls.{Call, options_of}
use rate_x_rate_limiter_web.Api.Errors.{error_body, text_of, settle-error_body}
use rate_x_rate_limiter_web.Server.Auth.{admin_auth}
use rate_x_rate_limiter_web.Server.Router.{
  Handler, Route, Guard, Engine, open_to_all, admin_only, rate_limited,
}
use rate_x_rate_limiter_web.Server.Store.{Db}
use rate_x_rate_limiter_web.Server.Handlers.{
  Payload, Reply, done, failed, no_content, State, Outside, Request, handle,
}
use rate_x_rate_limiter_web.Contract.{
  handler_for, guard_for, route_of, HasPlainId, Reaches, call-Reaches,
}

-- A route of the administration answers 401 without the token; the demo endpoint is not here.
abbrev pub guarded :
    Guard → String → List (String × String) → Option (Reply × Db) → Db → Option (Reply × Db)
guarded open_to_all admin_token headers answer db = answer
guarded admin_only admin_token headers answer db =
    if admin_auth admin_token headers then answer else some (failed 401 "unauthorized" none, db)
guarded rate_limited admin_token headers answer db = none

abbrev pub on_route :
    Outside → String → List (String × String) → Request → State → Option Route → Option (Reply × Db)
on_route out admin_token headers r s none = none
on_route out admin_token headers r s (some route) =
    guarded route.guard admin_token headers (handle out route.handler r s) s.db

-- A call of the client, of which the server is given the token, the parameter, the query and the body.
unfoldable pub answer :
    Engine → Outside → String → String → Call → Request → State → Option (Reply × Db)
unfolding handle
answer engine out admin_token token c r s =
    on_route out admin_token (options_of token c).headers r s (route_of engine token c)

-- The response that a reply becomes.
abbrev pub IsSent : (String → Result Json) → (Payload → Json) → Reply → Response → Type 0
IsSent parse json (done status p) r = (r.status ≡ status) × (parse r.text ≡ ok (json p))
IsSent parse json (failed status e m) r =
    (r.status ≡ status) × ((is_empty r.text ≡ false) × (parse r.text ≡ ok (error_body e m)))
IsSent parse json no_content r = r.status ≡ 204

-- The text of an error is not empty.
abbrev pub HasText : Reply → Type 0
HasText (done status p) = Unit
HasText (failed status e m) = is_empty (text_of e m) ≡ false
HasText no_content = Unit

-- What the client gets of a reply.
abbrev pub outcome : (Payload → Json) → Reply → Result (Option Json)
outcome json (done status p) = ok (some (json p))
outcome json (failed status e m) = err (text_of e m)
outcome json no_content = ok none

-- The statuses of the replies, with a body exactly where the client reads one.
abbrev pub IsFitting : Bool → Reply → Type 0
IsFitting empty (done status p) = (empty ≡ false) × ((status ≡ 200) ⊎ (status ≡ 201))
IsFitting empty (failed status e m) = leb 400 status ≡ true
IsFitting empty no_content = empty ≡ true
