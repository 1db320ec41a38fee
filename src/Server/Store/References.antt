-- ===== src/Server/Store/References.antt =====
-- Policies that keys and route policies refer to.
use rate_x_rate_limiter_web.Base.{
  ◌≡◌, refl, String, true, false, not, List, [], ◌∷◌, keep, length, map, arith, All, sym, ◌∙◌,
  is_err, str_eq, ltb, eq_iff, Bool-cases, inl, inr, ap, any,
}
use rate_x_rate_limiter_web.Model.{Policy, ApiKey, RoutePolicy}
use rate_x_rate_limiter_web.Server.Store.{Db, usage_count, delete_policy, revoke_key, revoked}

-- Some policy has the identifier.
abbrev pub Exists : List Policy → String → Type 0
Exists policies id = any (λ (p : Policy). str_eq p.id id) policies ≡ true

-- Every key and every route policy refers to a policy that is there.
pub record IsReferential (db : Db) : Type 0 where
  pub keys : All (λ (k : ApiKey). Exists db.policies k.policy_id) db.keys
  pub routes : All (λ (r : RoutePolicy). Exists db.policies r.policy_id) db.routes

-- Deleting a policy leaves the identifiers of the others.
exists-keep :
    (policies : List Policy) (id other : String)
    → str_eq other id ≡ false
    → Exists policies other
    → Exists (keep (λ (p : Policy). not (str_eq p.id id)) policies) other
exists-keep [] id other ne h = h
exists-keep (p ∷ policies) id other ne h =
    ground
      (arith, exists-keep policies id other ne, eq_iff p.id id, eq_iff p.id other, eq_iff other id)

module _ {A : Type 0} (policy_of : A → String) (policies : List Policy) (id : String) where
  all-unused :
      (rows : List A)
      → length (keep (λ r. str_eq (policy_of r) id) rows) ≡ 0
      → All (λ r. Exists policies (policy_of r)) rows
      → All (λ r. Exists (keep (λ (p : Policy). not (str_eq p.id id)) policies) (policy_of r)) rows
  all-unused [] e h = tt
  all-unused (r ∷ rows) e (h, hs) = elim (Bool-cases (str_eq (policy_of r) id)) [
    | inl used ↦ absurd (let f = rw used at e in omega arith)
    | inr other ↦
        (exists-keep policies id (policy_of r) other h, all-unused rows (rw other at e) hs)
  ]

unused :
    (id : String) (db : Db)
    → ltb 0 (usage_count id db) ≡ false
    → (length (keep (λ (k : ApiKey). str_eq k.policy_id id) db.keys) ≡ 0)
      × (length (keep (λ (r : RoutePolicy). str_eq r.policy_id id) db.routes) ≡ 0)
unfolding usage_count
unused id db h = ground arith

-- Deleting a policy never leaves a key or a route policy without its policy.
pub delete_policy-IsReferential :
    (id : String) (db : Db) → IsReferential db → IsReferential (delete_policy id db).1
unfolding delete_policy
delete_policy-IsReferential id db h = elim (Bool-cases (ltb 0 (usage_count id db))) [
  | inl used ↦ rw used h
  | inr free ↦
      let (no_keys, no_routes) = unused id db free in
      rw free (record {
        keys = all-unused (λ (k : ApiKey). k.policy_id) db.policies id db.keys no_keys h.keys;
        routes =
            all-unused (λ (r : RoutePolicy). r.policy_id) db.policies id db.routes no_routes
              h.routes;
      })
]

keys-revoke :
    (policy id now : String) (keys : List ApiKey)
    → length (keep (λ (k : ApiKey). str_eq k.policy_id policy) (map (revoked id now) keys))
      ≡ length (keep (λ (k : ApiKey). str_eq k.policy_id policy) keys)
keys-revoke policy id now [] = refl
keys-revoke policy id now (k ∷ keys) = ground (arith, keys-revoke policy id now keys)

usage_count-revoke_key :
    (policy id now : String) (db : Db)
    → usage_count policy (revoke_key id now db) ≡ usage_count policy db
unfolding usage_count revoke_key
usage_count-revoke_key policy id now db = rw (keys-revoke policy id now db.keys)

is_err-delete_policy :
    (policy : String) (db : Db) → is_err (delete_policy policy db).0 ≡ ltb 0 (usage_count policy db)
unfolding delete_policy
is_err-delete_policy policy db = ground arith

-- Revoking keys does not free their policy: a policy that could not be deleted before a key was
-- revoked cannot be deleted after.
pub delete_policy-revoke_key :
    (policy id now : String) (db : Db)
    → is_err (delete_policy policy db).0 ≡ true
    → is_err (delete_policy policy (revoke_key id now db)).0 ≡ true
delete_policy-revoke_key policy id now db h =
    is_err-delete_policy policy (revoke_key id now db)
    ∙ ap (ltb 0) (usage_count-revoke_key policy id now db)
    ∙ sym (is_err-delete_policy policy db)
    ∙ h
