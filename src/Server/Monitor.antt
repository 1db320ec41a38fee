-- ===== src/Server/Monitor.antt =====
-- internal/handler/health.go, internal/handler/demo.go and internal/handler/stats.go: whether the
-- server is up and ready, the demo endpoint, and the counters that the overview adds up. What a ping
-- answers and what the metrics library gathers are arguments.
use rate_x_rate_limiter_web.Base.{
  ℕ, ◌+◌, ◌≡◌, inl, inr, refl, String, false, not, Option, none, some, List, [], ◌∷◌, ◌++◌, Result,
  ok, err, str_eq, if◌then◌else◌, any, eq_refl, Bool-cases,
}
use rate_x_rate_limiter_web.Model.{Stats}

-- A status, a header or none, and the fields of the body.
pub record Answer : Type 0 where
  pub status : ℕ
  pub headers : List (String × String)
  pub body : List (String × String)

-- `Health`
abbrev pub health : Answer
health = record { status = 200; headers = []; body = ("status", "ok") ∷ ("service", "ratex") ∷ [] }

abbrev not_ready : String → String → Answer
not_ready part e = record {
  status = 503;
  headers = [];
  body = ("status", "not_ready") ∷ (part, e) ∷ [];
}

abbrev is_ready : List (String × String) → Answer
is_ready headers = record { status = 200; headers = headers; body = ("status", "ready") ∷ [] }

-- `Ready`: the answer of the database, and that of Redis, or none where the limits are kept in memory.
unfoldable pub ready : Result (Unit {0}) → Option (Result (Unit {0})) → Answer
ready (err e) redis = not_ready "database" e
ready (ok _) none = is_ready (("X-RateLimit-Backend", "memory") ∷ [])
ready (ok _) (some (err e)) = not_ready "redis" e
ready (ok _) (some (ok _)) = is_ready []

-- `DemoProducts`: the products with their prices.
pub record Product : Type 0 where
  pub id : String
  pub name : String
  pub price : ℕ

abbrev pub demo_products : List Product
demo_products =
    record { id = "prod_001"; name = "Starter API"; price = 19 }
    ∷ record { id = "prod_002"; name = "Scale API"; price = 99 }
    ∷ []

-- A family of metrics: its name, and for each metric the value of its counter, if it is one.
pub record Family : Type 0 where
  pub name : String
  pub counters : List (Option ℕ)

-- `readCounter`
abbrev pub read_counter : Option ℕ → ℕ
read_counter none = 0
read_counter (some n) = n

abbrev pub sum_of : List (Option ℕ) → ℕ
sum_of [] = 0
sum_of (c ∷ counters) = read_counter c + sum_of counters

abbrev pub in_families : String → List Family → ℕ
in_families name [] = 0
in_families name (f ∷ families) =
    if not (str_eq f.name name) then in_families name families else sum_of f.counters

-- `metricCounter`
unfoldable pub metric_counter : Result (List Family) → String → ℕ
metric_counter (err e) name = 0
metric_counter (ok families) name = in_families name families

-- `Overview`: the metrics are gathered anew for each of the three counters.
unfoldable pub overview : Result (List Family) → Result (List Family) → Result (List Family) → Stats
unfolding metric_counter
overview first second third = record {
  requests = metric_counter first "ratex_requests_total";
  allowed = metric_counter third "ratex_allowed_requests_total";
  rejected = metric_counter second "ratex_rejected_requests_total";
}

-- A counter of the overview is the sum over the labels of the family with its name, wherever that
-- stands among families of other names.
pub metric_counter-family :
    (name : String) (before after : List Family) (counters : List (Option ℕ))
    → any (λ (f : Family). str_eq f.name name) before ≡ false
    → metric_counter (ok (before ++ record { name = name; counters = counters } ∷ after)) name
      ≡ sum_of counters
unfolding metric_counter
metric_counter-family name [] after counters h = rw (eq_refl name) refl
metric_counter-family name (f ∷ before) after counters h = elim (Bool-cases (str_eq f.name name)) [
  | inl same ↦ absurd (let h' = rw same at h in cc)
  | inr other ↦ rw other (metric_counter-family name before after counters (rw other at h))
]
