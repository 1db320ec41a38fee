-- ===== src/Contract.antt =====
-- The dashboard's client against the server: each call of frontend/src/api.js is held against the
-- routes of cmd/server/main.go and the guard of internal/middleware/auth.go.
pub mod Service
pub mod Cross
pub mod Limited
use Prim.Native.String.{[], ◌∷◌}
use rate_x_rate_limiter_web.Base.{
  String, ◌≡◌, refl, keep, List, ◌≢◌, ◌↔◌, true, false, code, Option, none, some, eq_iff, arith,
}
use rate_x_rate_limiter_web.Text.{is_empty, or_text}
use rate_x_rate_limiter_web.Api.Calls.{Call, path_of, options_of}
use rate_x_rate_limiter_web.Server.Router.{
  Handler, Guard, Route, routes, serves, Engine, url_path, has_slash, open_to_all, admin_only,
}
use rate_x_rate_limiter_web.Server.Auth.{admin_auth, trim_space}

-- The handler that each call is meant for.
abbrev pub handler_for : Call → Handler
handler_for Call.get_stats = Handler.overview
handler_for Call.get_timeline = Handler.timeline
handler_for Call.get_top_routes = Handler.top_routes
handler_for Call.get_policies = Handler.list_policies
handler_for (Call.create_policy d) = Handler.create_policy
handler_for (Call.update_policy id d) = Handler.update_policy
handler_for (Call.delete_policy id) = Handler.delete_policy
handler_for Call.get_keys = Handler.list_keys
handler_for (Call.create_key d) = Handler.create_key
handler_for (Call.revoke_key id) = Handler.delete_key
handler_for (Call.get_events limit) = Handler.recent_events
handler_for Call.get_route_policies = Handler.list_routes
handler_for (Call.create_route_policy d) = Handler.create_route
handler_for (Call.update_route_policy id d) = Handler.update_route
handler_for (Call.delete_route_policy id) = Handler.delete_route

-- The three calls that anybody may make.
abbrev pub guard_for : Call → Guard
guard_for Call.get_stats = open_to_all
guard_for Call.get_timeline = open_to_all
guard_for Call.get_top_routes = open_to_all
guard_for _ = admin_only

abbrev pub HasNoMark : String → Type 0
HasNoMark [] = Unit
HasNoMark (c ∷ s) = (code c ≢ b'/') × (code c ≢ b'?') × HasNoMark s

-- An identifier that is one part of a path: not empty, no slash and no question mark.
abbrev pub IsPlainId : String → Type 0
IsPlainId id = (is_empty id ≡ false) × HasNoMark id

abbrev pub HasPlainId : Call → Type 0
HasPlainId (Call.update_policy id d) = IsPlainId id
HasPlainId (Call.delete_policy id) = IsPlainId id
HasPlainId (Call.revoke_key id) = IsPlainId id
HasPlainId (Call.update_route_policy id d) = IsPlainId id
HasPlainId (Call.delete_route_policy id) = IsPlainId id
HasPlainId _ = Unit

abbrev pub method_of : Option String → String
method_of none = "GET"
method_of (some m) = m

-- The routes of the table that serve a call.
abbrev pub serving : String → Call → List Route
serving token c =
    keep (serves (method_of (options_of token c).method) (url_path (path_of c))) routes

-- The route that the server finds for a call.
abbrev pub route_of : Engine → String → Call → Option Route
route_of engine token c =
    engine.find (method_of (options_of token c).method) (url_path (path_of c)) routes

abbrev pub Reaches : Call → Option Route → Type 0
Reaches c none = ⊥
Reaches c (some r) = (r.handler ≡ handler_for c) × (r.guard ≡ guard_for c)

-- One route serves a call, and it is the one that is meant.
abbrev IsOnly : Call → List Route → Type 0
IsOnly c List.[] = ⊥
IsOnly c (List.◌∷◌ r List.[]) = Reaches c (some r)
IsOnly c (List.◌∷◌ r (List.◌∷◌ q rs)) = ⊥

url_path-plain : (s : String) → HasNoMark s → url_path s ≡ s
unfolding url_path
url_path-plain [] h = refl
url_path-plain (c ∷ s) (p, q, h) = ground (arith, url_path-plain s h)

has_slash-plain : (s : String) → HasNoMark s → has_slash s ≡ false
unfolding has_slash
has_slash-plain [] h = refl
has_slash-plain (c ∷ s) (p, q, h) = ground (arith, has_slash-plain s h)

module _ (token : String) where
  serving-IsOnly : (c : Call) → HasPlainId c → IsOnly c (serving token c)
  unfolding path_of options_of serves url_path routes
  serving-IsOnly Call.get_stats h = (refl, refl)
  serving-IsOnly (Call.update_policy id d) (e, h) =
      rw (url_path-plain id h, e, has_slash-plain id h) (refl, refl)
  serving-IsOnly (Call.delete_policy id) (e, h) =
      rw (url_path-plain id h, e, has_slash-plain id h) (refl, refl)
  serving-IsOnly (Call.revoke_key id) (e, h) =
      rw (url_path-plain id h, e, has_slash-plain id h) (refl, refl)
  serving-IsOnly (Call.update_route_policy id d) (e, h) =
      rw (url_path-plain id h, e, has_slash-plain id h) (refl, refl)
  serving-IsOnly (Call.delete_route_policy id) (e, h) =
      rw (url_path-plain id h, e, has_slash-plain id h) (refl, refl)
  serving-IsOnly _ h = (refl, refl)

  Reaches-only :
      (engine : Engine) (c : Call) (rs : List Route)
      → serving token c ≡ rs
      → IsOnly c rs
      → Reaches c (route_of engine token c)
  Reaches-only engine c List.[] e h = absurd h
  Reaches-only engine c (List.◌∷◌ r List.[]) e h = rw (engine.find-only _ _ routes r e) h
  Reaches-only engine c (List.◌∷◌ r (List.◌∷◌ q rs)) e h = absurd h

  -- With a router that finds the route of the table that serves a request, where there is exactly
  -- one, every call of the client, with identifiers that are one part of a path, reaches the handler
  -- that it is meant for, and that handler stands behind the guard of `guard_for`: the three
  -- statistics are open, all else is for administrators.
  pub call-Reaches :
      (engine : Engine) (c : Call) → HasPlainId c → Reaches c (route_of engine token c)
  call-Reaches engine c h = Reaches-only engine c (serving token c) refl (serving-IsOnly c h)

  or_text-empty : (a : String) → or_text a "" ≡ a
  or_text-empty [] = refl
  or_text-empty (c ∷ s) = refl

  -- A call of an administration endpoint passes the server's token test exactly when the client's
  -- token, trimmed, is the server's.
  pub admin_auth_iff :
      (admin_token : String) (c : Call)
      → guard_for c ≡ admin_only
      → (admin_auth admin_token (options_of token c).headers ≡ true)
        ↔ (trim_space token ≡ admin_token)
  unfolding options_of admin_auth
  admin_auth_iff admin_token Call.get_stats e = absurd (cc)
  admin_auth_iff admin_token Call.get_timeline e = absurd (cc)
  admin_auth_iff admin_token Call.get_top_routes e = absurd (cc)
  admin_auth_iff admin_token _ e =
      rw (or_text-empty (trim_space token)) (eq_iff (trim_space token) admin_token)
