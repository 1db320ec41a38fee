-- ===== src/Server/Handlers/Effects.antt =====
-- What a request changes: whatever the handlers store, the tables keep their promises.
use rate_x_rate_limiter_web.Base.{ℕ, String, Option, none, some, Result, ok, err, List}
use rate_x_rate_limiter_web.Text.{append}
use rate_x_rate_limiter_web.Model.{ApiKey, PolicyDraft, KeyDraft, RouteDraft}
use rate_x_rate_limiter_web.Server.Store.{
  Db, create_policy, update_policy, delete_policy, revoke_key, create_route, update_route,
  delete_route, create_key,
}
use rate_x_rate_limiter_web.Server.Store.Sound.{IsSound}
use rate_x_rate_limiter_web.Server.Store.Runs.{
  Statement, add_policy, change_policy, drop_policy, add_key, cancel_key, add_route, change_route,
  drop_route, execute, execute-IsSound,
}
use rate_x_rate_limiter_web.Server.Accounts.{create, shown, encode, random_api_key, key_row}
use rate_x_rate_limiter_web.Server.Router.{Handler}
use rate_x_rate_limiter_web.Server.Handlers.{
  Reply, State, Outside, Request, asked, handle, deleted, emptied, key_created, policy_created,
  policy_updated, route_created, route_updated,
}

-- The tables after a handler, if there is one.
abbrev pub after : Option (Reply × Db) → Db → Db
after none db = db
after (some (reply, next)) db = next

asked-IsSound {ℓ} :
    {A : Type ℓ}
    → (fault : Option String) (answer : Result A × Db) (db : Db) → IsSound answer.1
    → IsSound db
    → IsSound (asked fault answer db).1
asked-IsSound none answer db h sound = h
asked-IsSound (some e) answer db h sound = sound

deleted-IsSound :
    (fault : Option String) (answer : Result (Unit {0}) × Db) (db : Db)
    → IsSound answer.1
    → IsSound db
    → IsSound (deleted fault answer db).1
deleted-IsSound (some e) answer db h sound = sound
deleted-IsSound none (ok _, next) db h sound = h
deleted-IsSound none (err e, next) db h sound = h

emptied-IsSound :
    (fault : Option String) (next db : Db)
    → IsSound next
    → IsSound db
    → IsSound (emptied fault next db).1
emptied-IsSound none next db h sound = h
emptied-IsSound (some e) next db h sound = sound

shown-IsSound :
    (secret : String) (answer : Result ApiKey × Db)
    → IsSound answer.1
    → IsSound (shown secret answer).1
shown-IsSound secret (ok k, next) h = h
shown-IsSound secret (err e, next) h = h

module _ (out : Outside) (db : Db) (sound : IsSound db) where
  executed-IsSound : (s : Statement) → IsSound (execute db s)
  executed-IsSound s = execute-IsSound db s sound

  policy_created-IsSound : (d : Result PolicyDraft) → IsSound (policy_created out d db).1
  unfolding execute
  policy_created-IsSound (err e) = sound
  policy_created-IsSound (ok d) =
      asked-IsSound out.fault (create_policy out.id out.now d db) db
        (executed-IsSound (add_policy out.id out.now d)) sound

  policy_updated-IsSound :
      (id : String) (d : Result PolicyDraft) → IsSound (policy_updated out id d db).1
  unfolding execute
  policy_updated-IsSound id (err e) = sound
  policy_updated-IsSound id (ok d) =
      asked-IsSound out.fault (update_policy id out.now d db) db
        (executed-IsSound (change_policy id out.now d)) sound

  route_created-IsSound : (d : Result RouteDraft) → IsSound (route_created out d db).1
  unfolding execute
  route_created-IsSound (err e) = sound
  route_created-IsSound (ok d) =
      asked-IsSound out.fault (create_route out.id out.now d db) db
        (executed-IsSound (add_route out.id out.now d)) sound

  route_updated-IsSound :
      (id : String) (d : Result RouteDraft) → IsSound (route_updated out id d db).1
  unfolding execute
  route_updated-IsSound id (err e) = sound
  route_updated-IsSound id (ok d) =
      asked-IsSound out.fault (update_route id out.now d db) db
        (executed-IsSound (change_route id out.now d)) sound

  create-IsSound :
      (user : Result String) (random : Result (List ℕ)) (name policy_id : String)
      → IsSound (create out.sha256 user random out.id out.now name policy_id db).1
  unfolding create random_api_key execute
  create-IsSound (err e) random name policy_id = sound
  create-IsSound (ok user) (err e) name policy_id = sound
  create-IsSound (ok user) (ok bytes) name policy_id =
      let row =
        key_row out.sha256 user (append "rx_live_" (encode bytes)) out.id out.now name policy_id in
      shown-IsSound (append "rx_live_" (encode bytes)) (create_key row db)
        (executed-IsSound (add_key row))

  key_created-IsSound : (d : Result KeyDraft) → IsSound (key_created out d db).1
  key_created-IsSound (err e) = sound
  key_created-IsSound (ok d) =
      asked-IsSound out.fault
        (create out.sha256 out.user out.random out.id out.now d.name d.policy_id db) db
        (create-IsSound out.user out.random d.name d.policy_id) sound

-- Whatever a request asks of whichever handler, and whatever fails outside, the tables that kept
-- their promises before it do so after it.
pub handle-IsSound :
    (out : Outside) (h : Handler) (r : Request) (s : State)
    → IsSound s.db
    → IsSound (after (handle out h r s) s.db)
unfolding handle
handle-IsSound out Handler.create_policy r s sound = policy_created-IsSound out s.db sound _
handle-IsSound out Handler.update_policy r s sound = policy_updated-IsSound out s.db sound r.param _
handle-IsSound out Handler.delete_policy r s sound =
    deleted-IsSound out.fault (delete_policy r.param s.db) s.db
      (unfold execute in executed-IsSound out s.db sound (drop_policy r.param)) sound
handle-IsSound out Handler.create_key r s sound = key_created-IsSound out s.db sound _
handle-IsSound out Handler.delete_key r s sound =
    emptied-IsSound out.fault (revoke_key r.param out.now s.db) s.db
      (unfold execute in executed-IsSound out s.db sound (cancel_key r.param out.now)) sound
handle-IsSound out Handler.create_route r s sound = route_created-IsSound out s.db sound _
handle-IsSound out Handler.update_route r s sound = route_updated-IsSound out s.db sound r.param _
handle-IsSound out Handler.delete_route r s sound =
    emptied-IsSound out.fault (delete_route r.param s.db) s.db
      (unfold execute in executed-IsSound out s.db sound (drop_route r.param)) sound
handle-IsSound out Handler.overview r s sound = sound
handle-IsSound out Handler.health r s sound = sound
handle-IsSound out Handler.ready r s sound = sound
handle-IsSound out Handler.prometheus r s sound = sound
handle-IsSound out Handler.demo_products r s sound = sound
handle-IsSound out _ r s sound = asked-IsSound out.fault (ok _, s.db) s.db sound sound
