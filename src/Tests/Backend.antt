-- ===== src/Tests/Backend.antt =====
-- The server's statistics, validation and tables.
use rate_x_rate_limiter_web.Base.{
  ℕ, ◌≡◌, refl, String, true, false, none, some, err, List, [], ◌∷◌, ok, is_err, keep, length,
  arith, first, ap,
}
use rate_x_rate_limiter_web.Model.{Policy, PolicyDraft, ApiKey, RouteDraft, Stats}
use rate_x_rate_limiter_web.App.{empty_policy, hour_1, hour_6}
use rate_x_rate_limiter_web.App.Handlers.{load_more}
use rate_x_rate_limiter_web.App.Loop.{Input, user}
use rate_x_rate_limiter_web.Api.Calls.{Call}
use rate_x_rate_limiter_web.Chart.{TimeStyle, build_chart_data}
use rate_x_rate_limiter_web.Contract.{Reaches, route_of, call-Reaches}
use rate_x_rate_limiter_web.Server.Auth.{trim_space}
use rate_x_rate_limiter_web.Server.Router.{Engine, serves}
use rate_x_rate_limiter_web.Server.Events.{Logged, timeline}
use rate_x_rate_limiter_web.Server.Events.Recent.{answered, length-answered}
use rate_x_rate_limiter_web.Server.Events.Timeline.{chart-timeline}
use rate_x_rate_limiter_web.Panels.Policies.{FormEdit, algorithm, request_limit, edit_form}
use rate_x_rate_limiter_web.Panels.Policies.Form.{edited}
use rate_x_rate_limiter_web.Server.Policies.{
  validate_policy, validate_route, to_upper, algorithm_of, to_lower,
}
use rate_x_rate_limiter_web.Server.Store.{Db, delete_policy, usage_count}
use rate_x_rate_limiter_web.Server.Store.References.{IsReferential}
use rate_x_rate_limiter_web.Api.{Response}
use rate_x_rate_limiter_web.Contract.Cross.{seen as seen_by}
use rate_x_rate_limiter_web.Server.Monitor.{Family, overview}

-- A router that takes the first route.
abbrev pub engine : Engine
engine = record {
  find = λ method path rs. first (keep (serves method path) rs);
  find-only = λ method path rs r e. ap first e;
}

call-Reaches_example :
    Reaches (Call.delete_policy "p1") (route_of engine "t" (Call.delete_policy "p1"))
call-Reaches_example = call-Reaches "t" engine (Call.delete_policy "p1") (refl, ground arith)

-- A request that was let through, and its log.
abbrev seen : Logged
seen = record {
  event = record {
    id = 1;
    method = "GET";
    route = "/demo";
    identity_type = "ip";
    identity_value = "127.0.0.1";
    policy_name = "free";
    allowed = true;
    status_code = 200;
    request_limit = 10;
    remaining = 9;
    retry_after = 0;
    duration_ms = 2;
    created_at = "";
  };
  at = 7200001;
}

abbrev pub log : List Logged
log = seen ∷ record seen { at = 7140000 } ∷ record seen { at = 5000000 } ∷ []

abbrev clicks : List Input
clicks = user load_more ∷ user load_more ∷ []

length-answered_example : length (answered clicks log) ≡ 3
length-answered_example = length-answered clicks log

abbrev label : TimeStyle → ℕ → String
label style at = "12:00"

abbrev totals : Stats
totals = record { requests = 3; allowed = 3; rejected = 0 }

chart-timeline_example :
    build_chart_data label 7260000 (timeline 7260000 log) hour_6 totals
    ≡ build_chart_data label 7260000 (timeline 7260000 log) hour_1 totals
unfolding timeline
chart-timeline_example = chart-timeline label 7260000 7260000 log totals (λ e. cc e) (omega arith)

abbrev edits : List FormEdit
edits = algorithm "token_bucket" ∷ request_limit 5 ∷ []

abbrev bucket_draft : PolicyDraft
bucket_draft = record empty_policy { request_limit = 5 }

accepted : validate_policy (edited empty_policy edits) ≡ ok bucket_draft
unfolding validate_policy algorithm_of to_lower trim_space edit_form
accepted = refl

abbrev leaky : PolicyDraft
leaky = record empty_policy { algorithm = " Leaky " }

leaky_test : is_err (validate_policy leaky) ≡ true
unfolding validate_policy algorithm_of to_lower trim_space
leaky_test = refl

-- A route that is sent disabled.
abbrev disabled : RouteDraft
disabled = record { method = " get"; route_pattern = "/demo"; policy_id = "p1"; enabled = false }

abbrev enabled_route : RouteDraft
enabled_route = record { method = "GET"; route_pattern = "/demo"; policy_id = "p1"; enabled = true }

enabled_anyway : validate_route disabled ≡ ok enabled_route
unfolding validate_route to_upper trim_space
enabled_anyway = refl

abbrev pub free : Policy
free = record {
  id = "p1";
  name = "free";
  algorithm = "token_bucket";
  request_limit = 100;
  window_seconds = 60;
  burst_capacity = 100;
  created_at = "";
  updated_at = "";
}

abbrev pub demo_key : ApiKey
demo_key = record {
  id = "k1";
  user_id = "u1";
  name = "Demo";
  key_prefix = "rk_";
  key_hash = "h1";
  policy_id = "p1";
  policy_name = "free";
  created_at = "";
  expires_at = none;
  revoked_at = none;
}

abbrev pub tables : Db
tables = record {
  policies = free ∷ record free { id = "p2"; name = "pro" } ∷ [];
  keys = demo_key ∷ [];
  routes = [];
}

tables-IsReferential : IsReferential tables
tables-IsReferential = record { keys = (refl, tt); routes = tt }

delete_policy_test : length (delete_policy "p2" tables).1.policies ≡ 1
unfolding delete_policy usage_count
delete_policy_test = refl

in_use_before : is_err (delete_policy "p1" tables).0 ≡ true
unfolding delete_policy usage_count
in_use_before = refl

abbrev limited_answer : Response
limited_answer = record {
  status = 429;
  status_text = "Too Many Requests";
  header = λ name. some "9";
  text = "";
}

abbrev gathered : List Family
gathered =
    record { name = "go_goroutines"; counters = none ∷ [] }
    ∷ record { name = "ratex_requests_total"; counters = some 3 ∷ some 4 ∷ [] }
    ∷ []

overview_test : (overview (ok gathered) (ok gathered) (err "gather")).requests ≡ 7
unfolding overview
overview_test = refl
