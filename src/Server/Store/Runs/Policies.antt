-- ===== src/Server/Store/Runs/Policies.antt =====
-- The statements on policies keep what the tables promise.
use rate_x_rate_limiter_web.Base.{
  ◌≡◌, refl, String, false, Option, none, some, List, [], ◌∷◌, any, map, arith, ◌∙◌, str_eq, ltb,
  Bool-cases, inl, inr,
}
use rate_x_rate_limiter_web.Model.{Policy, PolicyDraft}
use rate_x_rate_limiter_web.Server.Store.{
  Db, is_storable, policy_row, replaced_policy, updated_policy, update_found, create_policy,
  delete_policy, usage_count, takes_policy, other_has_name,
}
use rate_x_rate_limiter_web.Server.Store.Distinct.{
  str_eq_sym, Distinct-keep, Distinct-replace, same_row,
}
use rate_x_rate_limiter_web.Server.Store.References.{delete_policy-IsReferential}
use rate_x_rate_limiter_web.Server.Store.Sound.{
  IsSound, All-map_policies, All-keep_policies, IsReferential-policies,
}

-- No row takes the identifier or the name: the new row is apart from all.
policy_row-apart :
    (id now : String) (d : PolicyDraft) (policies : List Policy)
    → any (takes_policy id d.name) policies ≡ false
    → any
        (same_row (λ (p : Policy). p.id) (λ (p : Policy). p.name) str_eq (policy_row id now d))
        policies
      ≡ false
policy_row-apart id now d [] h = refl
policy_row-apart id now d (p ∷ policies) h =
    let rest = policy_row-apart id now d policies (ground arith) in
    ground (arith, rest, str_eq_sym id p.id, str_eq_sym d.name p.name)

pub create_policy-IsSound :
    (id now : String) (d : PolicyDraft) (db : Db)
    → IsSound db
    → IsSound (create_policy id now d db).1
unfolding create_policy
create_policy-IsSound id now d db h = elim (Bool-cases (is_storable d)) [
  | inr bad ↦ rw bad h
  | inl good ↦ elim (Bool-cases (any (takes_policy id d.name) db.policies)) [
    | inl taken ↦ rw (good, taken) h
    | inr free ↦
        rw (good, free)
          (record {
            referential =
                IsReferential-policies db (policy_row id now d ∷ db.policies)
                  (λ j e. ground (arith, e)) h.referential;
            storable = (good, h.storable);
            policies = (policy_row-apart id now d db.policies free, h.policies);
            keys = h.keys;
            routes = h.routes;
          })
  ]
]

exists-replaced :
    (id now : String) (d : PolicyDraft) (j : String) (policies : List Policy)
    → any (λ (p : Policy). str_eq p.id j) (map (replaced_policy id now d) policies)
      ≡ any (λ (p : Policy). str_eq p.id j) policies
exists-replaced id now d j [] = refl
exists-replaced id now d j (p ∷ policies) = ground (arith, exists-replaced id now d j policies)

pub update_found-IsSound :
    (id now : String) (d : PolicyDraft) (db : Db) (found : Option Policy)
    → IsSound db
    → IsSound (update_found id now d db found).1
update_found-IsSound id now d db none h = h
update_found-IsSound id now d db (some p) h = elim (Bool-cases (is_storable d)) [
  | inr bad ↦ rw bad h
  | inl good ↦ elim (Bool-cases (any (other_has_name id d.name) db.policies)) [
    | inl taken ↦ rw (good, taken) h
    | inr free ↦
        rw (good, free)
          (record {
            referential =
                IsReferential-policies db (map (replaced_policy id now d) db.policies)
                  (λ j e. exists-replaced id now d j db.policies ∙ e) h.referential;
            storable =
                All-map_policies db.policies (replaced_policy id now d)
                  (λ q e. ground (arith, e, good)) h.storable;
            policies =
                Distinct-replace (λ (q : Policy). q.id) (λ (q : Policy). q.name) str_eq str_eq_sym
                  id d.name (updated_policy now d) (λ q. refl) (λ q. refl) db.policies free
                  h.policies;
            keys = h.keys;
            routes = h.routes;
          })
  ]
]

pub delete_policy-IsSound : (id : String) (db : Db) → IsSound db → IsSound (delete_policy id db).1
unfolding delete_policy
delete_policy-IsSound id db h =
    let refs = delete_policy-IsReferential id db h.referential in
    elim (Bool-cases (ltb 0 (usage_count id db))) [
      | inl used ↦ rw used h
      | inr free ↦ rw free (record {
        referential = (rw free at refs);
        storable = All-keep_policies db.policies _ h.storable;
        policies =
            Distinct-keep (λ (q : Policy). q.id) (λ (q : Policy). q.name) str_eq _ db.policies
              h.policies;
        keys = h.keys;
        routes = h.routes;
      })
    ]
