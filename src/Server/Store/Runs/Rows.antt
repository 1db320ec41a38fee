-- ===== src/Server/Store/Runs/Rows.antt =====
-- The statements on keys and route policies keep what the tables promise.
use rate_x_rate_limiter_web.Base.{
  ◌≡◌, refl, String, false, Option, none, some, List, [], ◌∷◌, any, arith, str_eq, Bool-cases, inl,
  inr,
}
use rate_x_rate_limiter_web.Model.{ApiKey, RoutePolicy, RouteDraft}
use rate_x_rate_limiter_web.Server.Store.{
  Db, has_policy, revoke_key, revoked, create_key, route_row, updated_route, replaced_route,
  create_route, update_route_found, delete_route, takes_key, takes_route, other_has_route,
}
use rate_x_rate_limiter_web.Server.Policies.{to_upper}
use rate_x_rate_limiter_web.Server.Store.Distinct.{
  str_eq_sym, Distinct-keep, Distinct-replace, Distinct-map, same_row,
}
use rate_x_rate_limiter_web.Server.Store.Sound.{
  IsSound, same_path, same_path_sym, path_of, All-Exists_keep, All-Exists_map,
}

key-apart :
    (k : ApiKey) (keys : List ApiKey)
    → any (takes_key k) keys ≡ false
    → any (same_row (λ (r : ApiKey). r.id) (λ (r : ApiKey). r.key_hash) str_eq k) keys ≡ false
key-apart k [] h = refl
key-apart k (r ∷ keys) h =
    let rest = key-apart k keys (ground arith) in
    ground (arith, rest, str_eq_sym k.id r.id, str_eq_sym k.key_hash r.key_hash)

pub create_key-IsSound : (k : ApiKey) (db : Db) → IsSound db → IsSound (create_key k db).1
unfolding create_key
create_key-IsSound k db h = elim (Bool-cases (has_policy k.policy_id db)) [
  | inr missing ↦ rw missing h
  | inl there ↦ elim (Bool-cases (any (takes_key k) db.keys)) [
    | inl taken ↦ rw (there, taken) h
    | inr free ↦
        rw (there, free)
          (record {
            referential = record {
              keys = (there, h.referential.keys);
              routes = h.referential.routes;
            };
            storable = h.storable;
            policies = h.policies;
            keys = (key-apart k db.keys free, h.keys);
            routes = h.routes;
          })
  ]
]

pub revoke_key-IsSound : (id now : String) (db : Db) → IsSound db → IsSound (revoke_key id now db)
unfolding revoke_key
revoke_key-IsSound id now db h = record {
  referential = record {
    keys =
        All-Exists_map (λ (k : ApiKey). k.policy_id) db.policies (revoked id now)
          (λ k e. ground (arith, e)) db.keys h.referential.keys;
    routes = h.referential.routes;
  };
  storable = h.storable;
  policies = h.policies;
  keys =
      Distinct-map (λ (k : ApiKey). k.id) (λ (k : ApiKey). k.key_hash) str_eq (revoked id now)
        (λ k. ground arith) (λ k. ground arith) db.keys h.keys;
  routes = h.routes;
}

route_row-apart :
    (id now : String) (d : RouteDraft) (routes : List RoutePolicy)
    → any (takes_route id d) routes ≡ false
    → any (same_row (λ (r : RoutePolicy). r.id) path_of same_path (route_row id now d)) routes
      ≡ false
route_row-apart id now d [] h = refl
route_row-apart id now d (r ∷ routes) h =
    let rest = route_row-apart id now d routes (ground arith) in
    ground (
      arith,
      rest,
      str_eq_sym id r.id,
      str_eq_sym (to_upper d.method) r.method,
      str_eq_sym d.route_pattern r.route_pattern,
    )

pub create_route-IsSound :
    (id now : String) (d : RouteDraft) (db : Db) → IsSound db → IsSound (create_route id now d db).1
unfolding create_route
create_route-IsSound id now d db h = elim (Bool-cases (has_policy d.policy_id db)) [
  | inr missing ↦ rw missing h
  | inl there ↦ elim (Bool-cases (any (takes_route id d) db.routes)) [
    | inl taken ↦ rw (there, taken) h
    | inr free ↦
        rw (there, free)
          (record {
            referential = record {
              keys = h.referential.keys;
              routes = (there, h.referential.routes);
            };
            storable = h.storable;
            policies = h.policies;
            keys = h.keys;
            routes = (route_row-apart id now d db.routes free, h.routes);
          })
  ]
]

pub update_route_found-IsSound :
    (id now : String) (d : RouteDraft) (db : Db) (found : Option RoutePolicy)
    → IsSound db
    → IsSound (update_route_found id now d db found).1
update_route_found-IsSound id now d db none h = h
update_route_found-IsSound id now d db (some r) h = elim (Bool-cases (has_policy d.policy_id db)) [
  | inr missing ↦ rw missing h
  | inl there ↦ elim (Bool-cases (any (other_has_route id d) db.routes)) [
    | inl taken ↦ rw (there, taken) h
    | inr free ↦
        rw (there, free)
          (record {
            referential = record {
              keys = h.referential.keys;
              routes =
                  All-Exists_map (λ (q : RoutePolicy). q.policy_id) db.policies
                    (replaced_route id now d) (λ q e. ground (arith, e, there)) db.routes
                    h.referential.routes;
            };
            storable = h.storable;
            policies = h.policies;
            keys = h.keys;
            routes =
                Distinct-replace (λ (q : RoutePolicy). q.id) path_of same_path same_path_sym id
                  (to_upper d.method, d.route_pattern) (updated_route now d) (λ q. refl) (λ q. refl)
                  db.routes free h.routes;
          })
  ]
]

pub delete_route-IsSound : (id : String) (db : Db) → IsSound db → IsSound (delete_route id db)
unfolding delete_route
delete_route-IsSound id db h = record {
  referential = record {
    keys = h.referential.keys;
    routes =
        All-Exists_keep (λ (r : RoutePolicy). r.policy_id) db.policies _ db.routes
          h.referential.routes;
  };
  storable = h.storable;
  policies = h.policies;
  keys = h.keys;
  routes = Distinct-keep (λ (q : RoutePolicy). q.id) path_of same_path _ db.routes h.routes;
}
