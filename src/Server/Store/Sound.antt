-- ===== src/Server/Store/Sound.antt =====
-- What the tables promise, and that every statement keeps it.
use rate_x_rate_limiter_web.Base.{
  ◌≡◌, String, Bool, true, ◌&&◌, List, [], ◌∷◌, keep, map, All, str_eq, Bool-cases, inl, inr, ap₂,
}
use rate_x_rate_limiter_web.Model.{Policy, PolicyDraft, ApiKey, RoutePolicy}
use rate_x_rate_limiter_web.Server.Store.{Db, is_storable}
use rate_x_rate_limiter_web.Server.Store.Distinct.{Distinct, str_eq_sym}
use rate_x_rate_limiter_web.Server.Store.References.{Exists, IsReferential}

abbrev pub draft_of : Policy → PolicyDraft
draft_of p = record {
  name = p.name;
  algorithm = p.algorithm;
  request_limit = p.request_limit;
  window_seconds = p.window_seconds;
  burst_capacity = p.burst_capacity;
}

abbrev pub same_path : String × String → String × String → Bool
same_path (m, r) (n, q) = str_eq m n && str_eq r q

pub same_path_sym : (a b : String × String) → same_path a b ≡ same_path b a
same_path_sym (m, r) (n, q) = ap₂ (λ x y. x && y) (str_eq_sym m n) (str_eq_sym r q)

abbrev pub DistinctPolicies : List Policy → Type 0
DistinctPolicies = Distinct (λ (p : Policy). p.id) (λ (p : Policy). p.name) str_eq

abbrev pub DistinctKeys : List ApiKey → Type 0
DistinctKeys = Distinct (λ (k : ApiKey). k.id) (λ (k : ApiKey). k.key_hash) str_eq

abbrev pub path_of : RoutePolicy → String × String
path_of r = (r.method, r.route_pattern)

abbrev pub DistinctRoutes : List RoutePolicy → Type 0
DistinctRoutes = Distinct (λ (r : RoutePolicy). r.id) path_of same_path

-- What every table promises: each row refers to a policy that is there; a policy has a known
-- algorithm and positive numbers; identifiers, names, hashes and routes stand for one row.
pub record IsSound (db : Db) : Type 0 where
  pub referential : IsReferential db
  pub storable : All (λ (p : Policy). is_storable (draft_of p) ≡ true) db.policies
  pub policies : DistinctPolicies db.policies
  pub keys : DistinctKeys db.keys
  pub routes : DistinctRoutes db.routes

pub All-map_policies :
    (policies : List Policy) (g : Policy → Policy)
    → ((p : Policy) → is_storable (draft_of p) ≡ true → is_storable (draft_of (g p)) ≡ true)
    → All (λ (p : Policy). is_storable (draft_of p) ≡ true) policies
    → All (λ (p : Policy). is_storable (draft_of p) ≡ true) (map g policies)
All-map_policies [] g f h = tt
All-map_policies (p ∷ policies) g f (h, hs) = (f p h, All-map_policies policies g f hs)

pub All-keep_policies :
    (policies : List Policy) (t : Policy → Bool)
    → All (λ (p : Policy). is_storable (draft_of p) ≡ true) policies
    → All (λ (p : Policy). is_storable (draft_of p) ≡ true) (keep t policies)
All-keep_policies [] t h = tt
All-keep_policies (p ∷ policies) t (h, hs) = elim (Bool-cases (t p)) [
  | inl stays ↦ rw stays (h, All-keep_policies policies t hs)
  | inr goes ↦ rw goes (All-keep_policies policies t hs)
]

module _ {A : Type 0} (policy_of : A → String) where
  -- Rows keep their policies while no policy goes.
  pub All-Exists_mono :
      (policies later : List Policy)
      → ((id : String) → Exists policies id → Exists later id)
      → (rows : List A) → All (λ r. Exists policies (policy_of r)) rows
      → All (λ r. Exists later (policy_of r)) rows
  All-Exists_mono policies later f [] h = tt
  All-Exists_mono policies later f (r ∷ rows) (h, hs) =
      (f (policy_of r) h, All-Exists_mono policies later f rows hs)

  pub All-Exists_keep :
      (policies : List Policy) (t : A → Bool) (rows : List A)
      → All (λ r. Exists policies (policy_of r)) rows
      → All (λ r. Exists policies (policy_of r)) (keep t rows)
  All-Exists_keep policies t [] h = tt
  All-Exists_keep policies t (r ∷ rows) (h, hs) = elim (Bool-cases (t r)) [
    | inl stays ↦ rw stays (h, All-Exists_keep policies t rows hs)
    | inr goes ↦ rw goes (All-Exists_keep policies t rows hs)
  ]

  pub All-Exists_map :
      (policies : List Policy) (g : A → A)
      → ((r : A) → Exists policies (policy_of r) → Exists policies (policy_of (g r)))
      → (rows : List A) → All (λ r. Exists policies (policy_of r)) rows
      → All (λ r. Exists policies (policy_of r)) (map g rows)
  All-Exists_map policies g f [] h = tt
  All-Exists_map policies g f (r ∷ rows) (h, hs) = (f r h, All-Exists_map policies g f rows hs)

pub IsReferential-policies :
    (db : Db) (later : List Policy)
    → ((id : String) → Exists db.policies id → Exists later id)
    → IsReferential db
    → IsReferential (record db { policies = later })
IsReferential-policies db later f h = record {
  keys = All-Exists_mono (λ (k : ApiKey). k.policy_id) db.policies later f db.keys h.keys;
  routes =
      All-Exists_mono (λ (r : RoutePolicy). r.policy_id) db.policies later f db.routes h.routes;
}
