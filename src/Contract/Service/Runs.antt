-- ===== src/Contract/Service/Runs.antt =====
-- Dashboards that call the server one call after the other.
use rate_x_rate_limiter_web.Base.{String, Option, none, some, List, [], ◌∷◌, Bool-cases, inl, inr}
use rate_x_rate_limiter_web.Api.Calls.{Call, options_of}
use rate_x_rate_limiter_web.Server.Auth.{admin_auth}
use rate_x_rate_limiter_web.Server.Router.{
  Engine, Route, Guard, open_to_all, admin_only, rate_limited,
}
use rate_x_rate_limiter_web.Server.Store.{Db}
use rate_x_rate_limiter_web.Server.Store.Sound.{IsSound}
use rate_x_rate_limiter_web.Server.Handlers.{Reply, State, Outside, Request, handle}
use rate_x_rate_limiter_web.Server.Handlers.Effects.{after, handle-IsSound}
use rate_x_rate_limiter_web.Contract.{route_of}
use rate_x_rate_limiter_web.Contract.Service.{guarded, on_route, answer}

-- A call, the token of the dashboard that makes it, and what else the server is given with it.
pub record Exchange : Type 0 where
  pub call : Call
  pub token : String
  pub request : Request
  pub outside : Outside

module _ (engine : Engine) (admin_token : String) where
  abbrev pub answered : State → Exchange → Option (Reply × Db)
  answered s x = answer engine x.outside admin_token x.token x.call x.request s

  unfoldable pub serve_all : State → List Exchange → State
  serve_all s [] = s
  serve_all s (x ∷ xs) = serve_all (record s { db = after (answered s x) s.db }) xs

  guarded-IsSound :
      (guard : Guard) (hs : List (String × String)) (served : Option (Reply × Db)) (db : Db)
      → IsSound db
      → IsSound (after served db)
      → IsSound (after (guarded guard admin_token hs served db) db)
  guarded-IsSound open_to_all hs served db sound h = h
  guarded-IsSound admin_only hs served db sound h = elim (Bool-cases (admin_auth admin_token hs)) [
    | inl e ↦ rw e h
    | inr e ↦ rw e sound
  ]
  guarded-IsSound rate_limited hs served db sound h = sound

  on_route-IsSound :
      (out : Outside) (hs : List (String × String)) (r : Request) (s : State) (route : Option Route)
      → IsSound s.db
      → IsSound (after (on_route out admin_token hs r s route) s.db)
  on_route-IsSound out hs r s none sound = sound
  on_route-IsSound out hs r s (some route) sound =
      guarded-IsSound route.guard hs (handle out route.handler r s) s.db sound
        (handle-IsSound out route.handler r s sound)

  -- Any calls of dashboards, with any tokens, whichever routes they reach and whatever fails outside,
  -- keep the tables as they should be: every key and every route policy refers to a policy that is
  -- there, every policy can run, and no two rows claim the same name, hash or route.
  pub serve_all-IsSound :
      (s : State) (exchanges : List Exchange) → IsSound s.db → IsSound (serve_all s exchanges).db
  unfolding serve_all answer
  serve_all-IsSound s [] sound = sound
  serve_all-IsSound s (x ∷ xs) sound =
      serve_all-IsSound (record s { db = after (answered s x) s.db }) xs
        (on_route-IsSound x.outside (options_of x.token x.call).headers x.request s
          (route_of engine x.token x.call) sound)
