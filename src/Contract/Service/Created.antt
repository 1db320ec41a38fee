-- ===== src/Contract/Service/Created.antt =====
-- A policy that is created is the first that is listed.
use rate_x_rate_limiter_web.Base.{
  ◌≡◌, refl, ◌∙◌, String, Bool-cases, Option-cases, Result-cases, inl, inr, any, Option, none, some,
  List, ok,
}
use rate_x_rate_limiter_web.Model.{PolicyDraft}
use rate_x_rate_limiter_web.Api.Calls.{Call}
use rate_x_rate_limiter_web.Server.Auth.{trim_space}
use rate_x_rate_limiter_web.Server.Policies.{validate_policy}
use rate_x_rate_limiter_web.Server.Policies.Valid.{validate_policy-IsStorable}
use rate_x_rate_limiter_web.Server.Router.{Engine}
use rate_x_rate_limiter_web.Server.Store.{Db, create_policy, is_storable, takes_policy}
use rate_x_rate_limiter_web.Server.Handlers.{
  Reply, done, failed, State, Outside, Request, handle, policies, policy, policy_created,
}
use rate_x_rate_limiter_web.Contract.Service.{answer}
use rate_x_rate_limiter_web.Contract.Service.Changes.{answer-authorized}

-- The list of the tables after a creation begins with the new policy, as it was asked for; or the
-- creation failed and changed nothing.
abbrev pub IsListed : PolicyDraft → (Db → Option (Reply × Db)) → Db → Option (Reply × Db) → Type 0
IsListed d list db none = ⊥
IsListed d list db (some (done status (policy p), after)) =
    (list after ≡ some (done 200 (policies (List.◌∷◌ p db.policies)), after))
    × ((p.name ≡ d.name)
        × ((p.request_limit ≡ d.request_limit) × (p.window_seconds ≡ d.window_seconds)))
IsListed d list db (some (failed status e m, after)) = (status ≡ 400) × (after ≡ db)
IsListed d list db (some (_, after)) = ⊥

module _ (out : Outside) (db : Db) (list : Db → Option (Reply × Db)) where
  stored-IsListed :
      (d v : PolicyDraft)
      → ((after : Db) → list after ≡ some (done 200 (policies after.policies), after))
      → validate_policy d ≡ ok v
      → IsListed d list db (some (policy_created out (ok v) db))
  unfolding create_policy
  stored-IsListed d v lists accepted = elim (Option-cases out.fault) [
    | inr (e, down) ↦ rw down (refl, refl)
    | inl up ↦ elim (Bool-cases (is_storable v)) [
      | inr bad ↦ rw (up, bad) (refl, refl)
      | inl good ↦ elim (Bool-cases (any (takes_policy out.id v.name) db.policies)) [
        | inl taken ↦ rw (up, good, taken) (refl, refl)
        | inr free ↦
            let (_, name, limit, window, _) = validate_policy-IsStorable d v accepted in
            rw (up, good, free) (lists _, (name, (limit, window)))
      ]
    ]
  ]

  created-IsListed :
      (d : PolicyDraft)
      → ((after : Db) → list after ≡ some (done 200 (policies after.policies), after))
      → IsListed d list db (some (policy_created out (validate_policy d) db))
  created-IsListed d lists = elim (Result-cases (validate_policy d)) [
    | inl (v, e) ↦ rw e (stored-IsListed d v lists e)
    | inr (w, e) ↦ rw e (refl, refl)
  ]

-- The call that creates a policy, with the server's token, either fails with a bad request and
-- changes nothing, or the policy has the name, the limit and the window that were asked for, and the
-- next call for the policies, while the database answers, lists it first, before those of before.
pub create_policy-IsListed :
    (engine : Engine) (out next : Outside) (token : String) (d : PolicyDraft) (r q : Request)
    (s : State)
    → out.parse_policy r.body ≡ ok d
    → next.fault ≡ none
    → IsListed d
        (λ db.
          answer engine next (trim_space token) token Call.get_policies q (record s { db = db }))
        s.db
        (answer engine out (trim_space token) token (Call.create_policy d) r s)
unfolding handle
create_policy-IsListed engine out next token d r q s read up =
    rw
      (
        answer-authorized engine out (trim_space token) token r s (Call.create_policy d) tt refl,
        read,
      )
      (created-IsListed out s.db _ d (λ db.
        answer-authorized engine next (trim_space token) token q (record s { db = db })
          Call.get_policies tt refl
        ∙ (rw up refl)))
