-- ===== src/Model.antt =====
-- The records that the server sends and the dashboard keeps: internal/model and the drafts of the
-- dashboard's forms. Counts and limits are natural numbers. A text that the server leaves out when
-- it is empty is "" here; the instant of a time bucket is its number of milliseconds.
use rate_x_rate_limiter_web.Base.{ℕ, String, Bool, Option}

-- internal/model/policy.go
pub record Policy : Type 0 where
  pub id : String
  pub name : String
  pub algorithm : String
  pub request_limit : ℕ
  pub window_seconds : ℕ
  pub burst_capacity : ℕ
  pub created_at : String
  pub updated_at : String

-- The policy form.
pub record PolicyDraft : Type 0 where
  pub name : String
  pub algorithm : String
  pub request_limit : ℕ
  pub window_seconds : ℕ
  pub burst_capacity : ℕ

-- internal/model/api_key.go; the hash is kept by the server and not sent.
pub record ApiKey : Type 0 where
  pub id : String
  pub user_id : String
  pub name : String
  pub key_prefix : String
  pub key_hash : String
  pub policy_id : String
  pub policy_name : String
  pub created_at : String
  pub expires_at : Option String
  pub revoked_at : Option String

pub record CreatedKey : Type 0 where
  pub api_key : ApiKey
  pub key : String

-- The key form.
pub record KeyDraft : Type 0 where
  pub name : String
  pub policy_id : String

-- internal/model/route_policy.go
pub record RoutePolicy : Type 0 where
  pub id : String
  pub method : String
  pub route_pattern : String
  pub policy_id : String
  pub policy_name : String
  pub enabled : Bool
  pub created_at : String
  pub updated_at : String

-- The form of a new route policy, and the draft of a row that is edited.
pub record NewRoute : Type 0 where
  pub method : String
  pub route_pattern : String
  pub policy_id : String

pub record RouteDraft : Type 0 where
  pub method : String
  pub route_pattern : String
  pub policy_id : String
  pub enabled : Bool

-- internal/model/request_event.go
pub record RequestEvent : Type 0 where
  pub id : ℕ
  pub method : String
  pub route : String
  pub identity_type : String
  pub identity_value : String
  pub policy_name : String
  pub allowed : Bool
  pub status_code : ℕ
  pub request_limit : ℕ
  pub remaining : ℕ
  pub retry_after : ℕ
  pub duration_ms : ℕ
  pub created_at : String

pub record RouteSummary : Type 0 where
  pub route : String
  pub allowed : ℕ
  pub rejected : ℕ
  pub total : ℕ

pub record TimeBucket : Type 0 where
  pub bucket : ℕ
  pub allowed : ℕ
  pub rejected : ℕ
  pub total : ℕ

-- The body of GET /api/stats.
pub record Stats : Type 0 where
  pub requests : ℕ
  pub allowed : ℕ
  pub rejected : ℕ
