-- ===== src/Tests/Rows.antt =====
-- Revoked keys, kept limiters and full buckets.
use rate_x_rate_limiter_web.Base.{false, none, List, [], ◌∷◌, arith}
use rate_x_rate_limiter_web.Model.{PolicyDraft}
use rate_x_rate_limiter_web.App.{empty_policy}
use rate_x_rate_limiter_web.Server.Factory.{empty, after}
use rate_x_rate_limiter_web.Server.Factory.Default.{
  limiter_of, in_memory, default_policy, IsAsked, limiter_of-IsAsked,
}
use rate_x_rate_limiter_web.Server.Config.{Config}
use rate_x_rate_limiter_web.Text.Numbers.{pos}
use rate_x_rate_limiter_web.Server.Store.Runs.{Statement, add_key, drop_policy}
use rate_x_rate_limiter_web.Tests.Backend.{demo_key}

-- Somebody inserts the same key again, and deletes a policy.
abbrev later : List Statement
later = add_key demo_key ∷ drop_policy "p2" ∷ []

abbrev slow : PolicyDraft
slow = record empty_policy { request_limit = 5; burst_capacity = 1 }

abbrev pub set_up : Config
set_up = record {
  app_env = "development";
  http_port = "8081";
  database_url = "";
  redis_addr = "";
  redis_password = "";
  redis_db = pos 0;
  default_algorithm = "sliding_window";
  default_limit = pos 100;
  window_seconds = pos 60;
  default_burst_capacity = pos 100;
  rate_limit_backend = "redis";
  rate_limit_failure_mode = "closed";
  admin_token = "";
  frontend_origin = "";
}

limiter_of-IsAsked_example :
    IsAsked set_up false none
      (limiter_of set_up false
        (after (in_memory set_up false) set_up.rate_limit_backend (empty_policy ∷ slow ∷ []) empty)
        none).limiter
unfolding default_policy
limiter_of-IsAsked_example =
    limiter_of-IsAsked set_up false (empty_policy ∷ slow ∷ []) none
      (ground arith, (ground arith, tt)) (ground arith)
