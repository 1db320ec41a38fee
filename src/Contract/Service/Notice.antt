-- ===== src/Contract/Service/Notice.antt =====
-- From a click of the user to the server's tables and back to the notice: a policy that is in use.
use rate_x_rate_limiter_web.Base.{
  ◌≡◌, refl, sym, ap, ◌∙◌, subst, ◌<◌, String, Option, none, some, List, [], ◌∷◌, Result, ok, err,
}
use rate_x_rate_limiter_web.Model.{Policy}
use rate_x_rate_limiter_web.Api.{Json, Response, settle}
use rate_x_rate_limiter_web.Api.Calls.{Call, options_of}
use rate_x_rate_limiter_web.App.Handlers.{
  World, ask_delete_policy, run_confirmed, dispatch, with_state,
}
use rate_x_rate_limiter_web.App.Loop.{
  Input, user, settles, answer as settled, run, step, resume, pick,
}
use rate_x_rate_limiter_web.Server.Auth.{trim_space}
use rate_x_rate_limiter_web.Server.Router.{Engine}
use rate_x_rate_limiter_web.Server.Store.{Db, usage_count}
use rate_x_rate_limiter_web.Server.Handlers.{
  Payload, Reply, failed, State, Outside, Request, in_use,
}
use rate_x_rate_limiter_web.Contract.{HasPlainId}
use rate_x_rate_limiter_web.Contract.Service.{answer, IsSent}
use rate_x_rate_limiter_web.Contract.Service.Settles.{settle-answer}
use rate_x_rate_limiter_web.Contract.Service.Changes.{delete_policy-answer}

-- What the handler of a deletion waits for: no value, or the text of the error.
abbrev pub awaited : Result (Option Json) → Result String
awaited (ok v) = ok ""
awaited (err e) = err e

-- The user asks for the deletion, consents, and the call settles.
abbrev pub deletion : Policy → Result (Option Json) → List Input
deletion p result =
    user (ask_delete_policy p) ∷ user run_confirmed ∷ settles 0 (settled (awaited result)) ∷ []

deletion-fails :
    (w : World) (p : Policy) (e : String)
    → w.pending ≡ []
    → run w (deletion p (err e)) ≡ with_state w (record (w.state) { confirm = none; message = e })
unfolding run step dispatch resume pick
deletion-fails w p e idle = rw idle refl

-- While nothing else waits, the user asks for the deletion of a policy that a key or a route policy
-- uses and consents; the server, with the same token, answers the call. Then the notice is the
-- server's sentence for it, the dialog is closed, nothing else of the dashboard changes, and neither
-- do the server's tables.
pub notice-in_use :
    (parse : String → Result Json) (json : Payload → Json)
    → (engine : Engine) (out : Outside) (token : String) (r : Request) (s : State)
    → (w : World) (p : Policy) (reply : Reply) (after : Db) (response : Response) → w.pending ≡ []
    → out.fault ≡ none
    → HasPlainId (Call.delete_policy p.id)
    → r.param ≡ p.id
    → 0 < usage_count p.id s.db
    → answer engine out (trim_space token) token (Call.delete_policy p.id) r s ≡ some (reply, after)
    → IsSent parse json reply response
    → (run w (deletion p (settle parse (options_of token (Call.delete_policy p.id)).empty response))
        ≡ with_state w (record (w.state) { confirm = none; message = in_use }))
      × (after ≡ s.db)
notice-in_use parse json engine out token r s w p reply after response idle up plain same used
      served sent =
    let conflict : Reply = failed 409 "policy_in_use" (some in_use) in
    let refused = (delete_policy-answer engine out token r s up p.id plain same).0 used in
    let both : some (reply, after) ≡ some (conflict, s.db) = sym served ∙ refused in
    let got : Reply × Db = (reply, after) in
    let wanted : Reply × Db = (conflict, s.db) in
    let pair : got ≡ wanted = cc both in
    let sent' : IsSent parse json conflict response =
      subst (λ x. IsSent parse json x response) (ap (λ x. x.0) pair) sent in
    let error =
      settle-answer parse json engine out (trim_space token) token (Call.delete_policy p.id) r s
        conflict s.db response plain refused sent' refl in
    (ap (λ x. run w (deletion p x)) error ∙ deletion-fails w p in_use idle, ap (λ x. x.1) pair)
