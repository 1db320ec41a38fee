-- ===== src/Server/Store/Runs.antt =====
-- Any statements of the administration, one after the other.
pub mod Policies
pub mod Rows
use rate_x_rate_limiter_web.Base.{◌≡◌, String, List, [], ◌∷◌, find, str_eq}
use rate_x_rate_limiter_web.Model.{Policy, PolicyDraft, ApiKey, RoutePolicy, RouteDraft}
use rate_x_rate_limiter_web.Server.Store.{
  Db, create_policy, update_policy, update_found, delete_policy, revoke_key, create_key,
  create_route, update_route, update_route_found, delete_route,
}
use rate_x_rate_limiter_web.Server.Store.Sound.{IsSound}
use rate_x_rate_limiter_web.Server.Store.Runs.Policies.{
  create_policy-IsSound, update_found-IsSound, delete_policy-IsSound,
}
use rate_x_rate_limiter_web.Server.Store.Runs.Rows.{
  create_key-IsSound, revoke_key-IsSound, create_route-IsSound, update_route_found-IsSound,
  delete_route-IsSound,
}

-- A statement with the identifier and the moment that the database gives it.
pub data Statement : Type 0 where
  add_policy : String → String → PolicyDraft → Statement
  change_policy : String → String → PolicyDraft → Statement
  drop_policy : String → Statement
  add_key : ApiKey → Statement
  cancel_key : String → String → Statement
  add_route : String → String → RouteDraft → Statement
  change_route : String → String → RouteDraft → Statement
  drop_route : String → Statement

unfoldable pub execute : Db → Statement → Db
unfolding update_policy update_route
execute db (add_policy id now d) = (create_policy id now d db).1
execute db (change_policy id now d) = (update_policy id now d db).1
execute db (drop_policy id) = (delete_policy id db).1
execute db (add_key k) = (create_key k db).1
execute db (cancel_key id now) = revoke_key id now db
execute db (add_route id now d) = (create_route id now d db).1
execute db (change_route id now d) = (update_route id now d db).1
execute db (drop_route id) = delete_route id db

unfoldable pub run : Db → List Statement → Db
unfolding execute
run db [] = db
run db (s ∷ statements) = run (execute db s) statements

pub execute-IsSound : (db : Db) (s : Statement) → IsSound db → IsSound (execute db s)
unfolding execute
execute-IsSound db (add_policy id now d) h = create_policy-IsSound id now d db h
execute-IsSound db (change_policy id now d) h = update_found-IsSound id now d db _ h
execute-IsSound db (drop_policy id) h = delete_policy-IsSound id db h
execute-IsSound db (add_key k) h = create_key-IsSound k db h
execute-IsSound db (cancel_key id now) h = revoke_key-IsSound id now db h
execute-IsSound db (add_route id now d) h = create_route-IsSound id now d db h
execute-IsSound db (change_route id now d) h = update_route_found-IsSound id now d db _ h
execute-IsSound db (drop_route id) h = delete_route-IsSound id db h

-- From tables that keep their promises, after any statements of the administration, those that fail
-- included, every key and every route policy refers to a policy that is there, every policy has a
-- known algorithm and positive numbers, and no two policies have the same name, no two keys the same
-- hash and no two route policies the same method and pattern.
pub run-IsSound : (db : Db) (statements : List Statement) → IsSound db → IsSound (run db statements)
unfolding run
run-IsSound db [] h = h
run-IsSound db (s ∷ statements) h = run-IsSound (execute db s) statements (execute-IsSound db s h)
