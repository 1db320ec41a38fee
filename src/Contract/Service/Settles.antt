-- ===== src/Contract/Service/Settles.antt =====
-- What the promises of the client's calls settle with.
use rate_x_rate_limiter_web.Base.{
  ◌≡◌, refl, ◌⊎◌, inl, inr, ℕ, String, Bool, true, false, Option, none, some, List, Result, ok, err,
  arith, leb, Bool-cases, subst,
}
use rate_x_rate_limiter_web.Model.{PolicyDraft, RouteDraft, KeyDraft}
use rate_x_rate_limiter_web.Api.{Json, Response, settle}
use rate_x_rate_limiter_web.Api.Calls.{Call, options_of}
use rate_x_rate_limiter_web.Api.Errors.{settle-error_body}
use rate_x_rate_limiter_web.Server.Auth.{admin_auth}
use rate_x_rate_limiter_web.Server.Router.{
  Route, Guard, Engine, open_to_all, admin_only, rate_limited,
}
use rate_x_rate_limiter_web.Server.Store.{Db}
use rate_x_rate_limiter_web.Server.Handlers.{
  Payload, Reply, done, failed, no_content, State, Outside, Request, handle, reply, deleted,
  emptied, key_created, policy_created, policy_updated, route_created, route_updated,
}
use rate_x_rate_limiter_web.Contract.{handler_for, route_of, HasPlainId, Reaches, call-Reaches}
use rate_x_rate_limiter_web.Contract.Service.{
  guarded, on_route, answer, IsSent, HasText, outcome, IsFitting,
}

abbrev FitsAnswer : Bool → Option (Reply × Db) → Type 0
FitsAnswer empty none = Unit
FitsAnswer empty (some (reply, db)) = IsFitting empty reply

reply-IsFitting {ℓ} :
    {A : Type ℓ}
    → (bad good : ℕ) (payload : A → Payload) (result : Result A) → leb 400 bad ≡ true
    → (good ≡ 200) ⊎ (good ≡ 201)
    → IsFitting false (reply bad good payload result)
reply-IsFitting bad good payload (ok a) h k = (refl, k)
reply-IsFitting bad good payload (err e) h k = h

deleted-IsFitting :
    (fault : Option String) (result : Result (Unit {0}) × Db) (db : Db)
    → IsFitting true (deleted fault result db).0
deleted-IsFitting (some e) result db = refl
deleted-IsFitting none (ok _, after) db = refl
deleted-IsFitting none (err e, after) db = refl

emptied-IsFitting :
    (fault : Option String) (after db : Db) → IsFitting true (emptied fault after db).0
emptied-IsFitting none after db = refl
emptied-IsFitting (some e) after db = refl

module _ (out : Outside) (db : Db) where
  policy_created-IsFitting : (d : Result PolicyDraft) → IsFitting false (policy_created out d db).0
  policy_created-IsFitting (err e) = refl
  policy_created-IsFitting (ok d) = reply-IsFitting 400 201 _ _ refl (inr refl)

  policy_updated-IsFitting :
      (id : String) (d : Result PolicyDraft) → IsFitting false (policy_updated out id d db).0
  policy_updated-IsFitting id (err e) = refl
  policy_updated-IsFitting id (ok d) = reply-IsFitting 400 200 _ _ refl (inl refl)

  route_created-IsFitting : (d : Result RouteDraft) → IsFitting false (route_created out d db).0
  route_created-IsFitting (err e) = refl
  route_created-IsFitting (ok d) = reply-IsFitting 400 201 _ _ refl (inr refl)

  route_updated-IsFitting :
      (id : String) (d : Result RouteDraft) → IsFitting false (route_updated out id d db).0
  route_updated-IsFitting id (err e) = refl
  route_updated-IsFitting id (ok d) = reply-IsFitting 400 200 _ _ refl (inl refl)

  key_created-IsFitting : (d : Result KeyDraft) → IsFitting false (key_created out d db).0
  key_created-IsFitting (err e) = refl
  key_created-IsFitting (ok d) = reply-IsFitting 400 201 _ _ refl (inr refl)

handle-FitsAnswer :
    (out : Outside) (token : String) (c : Call) (r : Request) (s : State)
    → FitsAnswer (options_of token c).empty (handle out (handler_for c) r s)
unfolding handle options_of
handle-FitsAnswer out token Call.get_stats r s = (refl, inl refl)
handle-FitsAnswer out token (Call.create_policy d) r s = policy_created-IsFitting out s.db _
handle-FitsAnswer out token (Call.update_policy id d) r s =
    policy_updated-IsFitting out s.db r.param _
handle-FitsAnswer out token (Call.delete_policy id) r s = deleted-IsFitting out.fault _ s.db
handle-FitsAnswer out token (Call.create_key d) r s = key_created-IsFitting out s.db _
handle-FitsAnswer out token (Call.revoke_key id) r s = emptied-IsFitting out.fault _ s.db
handle-FitsAnswer out token (Call.create_route_policy d) r s = route_created-IsFitting out s.db _
handle-FitsAnswer out token (Call.update_route_policy id d) r s =
    route_updated-IsFitting out s.db r.param _
handle-FitsAnswer out token (Call.delete_route_policy id) r s = emptied-IsFitting out.fault _ s.db
handle-FitsAnswer out token _ r s = reply-IsFitting 500 200 _ _ refl (inl refl)

settle-IsFitting :
    (parse : String → Result Json) (json : Payload → Json) (empty : Bool) (reply : Reply)
    (r : Response)
    → IsFitting empty reply
    → IsSent parse json reply r
    → HasText reply
    → settle parse empty r ≡ outcome json reply
unfolding settle
settle-IsFitting parse json empty (done status p) r (e, inl h) (k, b) t = rw (e, k, h, b) refl
settle-IsFitting parse json empty (done status p) r (e, inr h) (k, b) t = rw (e, k, h, b) refl
settle-IsFitting parse json empty (failed status e m) r h (k, (full, b)) t =
    settle-error_body parse empty r e m (rw k (ground arith)) full b t
settle-IsFitting parse json empty no_content r h k t = rw (h, k) refl

guarded-FitsAnswer :
    (empty : Bool) (guard : Guard) (admin_token : String) (hs : List (String × String))
    → (served : Option (Reply × Db)) (db : Db) → FitsAnswer empty served
    → FitsAnswer empty (guarded guard admin_token hs served db)
guarded-FitsAnswer empty open_to_all admin_token hs served db h = h
guarded-FitsAnswer empty admin_only admin_token hs served db h =
    elim (Bool-cases (admin_auth admin_token hs)) [ inl e ↦ rw e h | inr e ↦ rw e refl ]
guarded-FitsAnswer empty rate_limited admin_token hs served db h = tt

on_route-FitsAnswer :
    (out : Outside) (token admin_token : String) (hs : List (String × String)) (c : Call)
    → (r : Request) (s : State) (route : Option Route) → Reaches c route
    → FitsAnswer (options_of token c).empty (on_route out admin_token hs r s route)
on_route-FitsAnswer out token admin_token hs c r s none h = tt
on_route-FitsAnswer out token admin_token hs c r s (some route) (same, guard) =
    guarded-FitsAnswer (options_of token c).empty route.guard admin_token hs
      (handle out route.handler r s) s.db (rw same (handle-FitsAnswer out token c r s))

-- Whatever the server replies to a call of the client, with identifiers that are one part of a path
-- and errors with a text, the promise of the call settles as it should: it throws exactly for a
-- reply that failed, with the message or else the code as its text; the value of a success is the
-- one that was sent; and a deletion that was done gives nothing.
pub settle-answer :
    (parse : String → Result Json) (json : Payload → Json)
    → (engine : Engine) (out : Outside) (admin_token token : String) (c : Call)
    → (r : Request) (s : State) (reply : Reply) (after : Db) (response : Response) → HasPlainId c
    → answer engine out admin_token token c r s ≡ some (reply, after)
    → IsSent parse json reply response
    → HasText reply
    → settle parse (options_of token c).empty response ≡ outcome json reply
unfolding answer
settle-answer parse json engine out admin_token token c r s reply after response plain e sent text =
    let fits =
      on_route-FitsAnswer out token admin_token (options_of token c).headers c r s
        (route_of engine token c) (call-Reaches token engine c plain) in
    let fitting : FitsAnswer (options_of token c).empty (some (reply, after)) =
      subst (FitsAnswer (options_of token c).empty) e fits in
    settle-IsFitting parse json (options_of token c).empty reply response fitting sent text
