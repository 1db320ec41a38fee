-- ===== src/Contract/Service/Changes.antt =====
-- What a call of the client is answered and what it changes, down to the handler: with and without
-- the token, and for the calls that a dashboard's notices and lists stand on.
use rate_x_rate_limiter_web.Base.{
  ◌≡◌, ◌≢◌, refl, ◌⊎◌, inl, inr, ℕ, ltb, map, String, true, false, not, any, keep, Option, none,
  some, List, arith, Bool-cases, ◌∙◌, str_eq, ◌<◌, ◌^◌,
}
use rate_x_rate_limiter_web.Model.{Policy}
use rate_x_rate_limiter_web.Text.{show}
use rate_x_rate_limiter_web.Text.Numbers.RoundTrip.{atoi-show}
use rate_x_rate_limiter_web.Api.Calls.{Call, options_of}
use rate_x_rate_limiter_web.Server.Auth.{admin_auth, trim_space}
use rate_x_rate_limiter_web.Server.Events.{Logged, recent}
use rate_x_rate_limiter_web.Server.Router.{Handler, Route, Engine, open_to_all, admin_only}
use rate_x_rate_limiter_web.Server.Store.{Db, has_policy, delete_policy, usage_count}
use rate_x_rate_limiter_web.Server.Handlers.{
  Reply, done, failed, no_content, State, Outside, Request, handle, in_use, events,
}
use rate_x_rate_limiter_web.Contract.{
  handler_for, guard_for, route_of, HasPlainId, Reaches, call-Reaches, admin_auth_iff,
}
use rate_x_rate_limiter_web.Contract.Service.{guarded, on_route, answer}

guard_for-cases : (c : Call) → (guard_for c ≡ open_to_all) ⊎ (guard_for c ≡ admin_only)
guard_for-cases Call.get_stats = inl refl
guard_for-cases Call.get_timeline = inl refl
guard_for-cases Call.get_top_routes = inl refl
guard_for-cases _ = inr refl

module _ (engine : Engine) (out : Outside) (admin_token token : String) (r : Request)
    (s : State) where
  on_route-Reaches :
      (c : Call) (hs : List (String × String)) (route : Option Route)
      → Reaches c route
      → on_route out admin_token hs r s route
        ≡ guarded (guard_for c) admin_token hs (handle out (handler_for c) r s) s.db
  on_route-Reaches c hs none h = absurd h
  on_route-Reaches c hs (some route) (same, guard) = rw (same, guard) refl

  -- An answer is that of the handler for the call, behind the guard for the call.
  answer-guarded :
      (c : Call)
      → HasPlainId c
      → answer engine out admin_token token c r s
        ≡ guarded
            (guard_for c)
            admin_token
            (options_of token c).headers
            (handle out (handler_for c) r s)
            s.db
  unfolding answer
  answer-guarded c plain =
      on_route-Reaches c (options_of token c).headers (route_of engine token c)
        (call-Reaches token engine c plain)

  -- With the token of the server, every call is answered by its handler.
  pub answer-authorized :
      (c : Call)
      → HasPlainId c
      → trim_space token ≡ admin_token
      → answer engine out admin_token token c r s ≡ handle out (handler_for c) r s
  answer-authorized c plain same = elim (guard_for-cases c) [
    | inl e ↦ rw (answer-guarded c plain, e) refl
    | inr e ↦ rw (answer-guarded c plain, e, (admin_auth_iff token admin_token c e).1 same) refl
  ]

  -- Without it, every call of the administration is answered that it is not authorized, whatever
  -- else it says, and changes nothing.
  pub answer-unauthorized :
      (c : Call)
      → HasPlainId c
      → guard_for c ≡ admin_only
      → trim_space token ≢ admin_token
      → answer engine out admin_token token c r s ≡ some (failed 401 "unauthorized" none, s.db)
  answer-unauthorized c plain guard other =
      let refused : admin_auth admin_token (options_of token c).headers ≡ false =
        (elim (Bool-cases (admin_auth admin_token (options_of token c).headers)) [
          | inl e ↦ absurd (other ((admin_auth_iff token admin_token c guard).0 e))
          | inr e ↦ e
        ]) in
      rw (answer-guarded c plain, guard, refused) refl

-- The reply has no content, and the policy is not in the tables.
abbrev pub Gone : String → Option (Reply × Db) → Type 0
Gone id none = ⊥
Gone id (some (reply, db)) = (reply ≡ no_content) × (has_policy id db ≡ false)

has_policy-keep :
    (id : String) (rows : List Policy)
    → any (λ (p : Policy). str_eq p.id id) (keep (λ (p : Policy). not (str_eq p.id id)) rows)
      ≡ false
has_policy-keep id List.[] = refl
has_policy-keep id (List.◌∷◌ p rows) = ground (arith, has_policy-keep id rows)

module _ (out : Outside) (r : Request) (s : State) (up : out.fault ≡ none) where
  handle-in_use :
      0 < usage_count r.param s.db
      → handle out Handler.delete_policy r s ≡ some (failed 409 "policy_in_use" (some in_use), s.db)
  unfolding handle delete_policy
  handle-in_use used =
      let yes : ltb 0 (usage_count r.param s.db) ≡ true = ground arith in rw (up, yes) refl

  handle-unused : usage_count r.param s.db ≡ 0 → Gone r.param (handle out Handler.delete_policy r s)
  unfolding handle delete_policy
  handle-unused unused = rw (up, unused) (refl, has_policy-keep r.param s.db.policies)

  handle-recent :
      (n : ℕ)
      → n < 2 ^ 63
      → r.limit ≡ some (show n)
      → handle out Handler.recent_events r s
        ≡ some (done 200 (events (map (λ (e : Logged). e.event) (recent n s.log))), s.db)
  unfolding handle
  handle-recent n small sent = rw (up, sent, atoi-show n small) refl

module _ (engine : Engine) (out : Outside) (token : String) (r : Request) (s : State)
    (up : out.fault ≡ none) where
  pub delete_policy-answer :
      (id : String)
      → HasPlainId (Call.delete_policy id)
      → r.param ≡ id
      → ((0 < usage_count id s.db)
          → answer engine out (trim_space token) token (Call.delete_policy id) r s
            ≡ some (failed 409 "policy_in_use" (some in_use), s.db))
        × ((usage_count id s.db ≡ 0)
            → Gone id (answer engine out (trim_space token) token (Call.delete_policy id) r s))
  delete_policy-answer id plain same =
      let served =
        answer-authorized engine out (trim_space token) token r s (Call.delete_policy id) plain
          refl in
      rw (served, ← same) (handle-in_use out r s up, handle-unused out r s up)

  -- While the database answers, the call for the latest events, with the server's token and any limit
  -- that fits into 63 bits, gets exactly the events that are asked for with that limit: the number in
  -- the address of the call is the number that the server reads.
  pub get_events-answer :
      (n : ℕ)
      → n < 2 ^ 63
      → r.limit ≡ some (show n)
      → answer engine out (trim_space token) token (Call.get_events n) r s
        ≡ some (done 200 (events (map (λ (e : Logged). e.event) (recent n s.log))), s.db)
  get_events-answer n small sent =
      answer-authorized engine out (trim_space token) token r s (Call.get_events n) tt refl
      ∙ handle-recent out r s up n small sent
