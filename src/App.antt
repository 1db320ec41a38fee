-- ===== src/App.antt =====
-- frontend/src/App.jsx: the state of the dashboard, what a render's closures capture, and the
-- initial state.
pub mod Load
pub mod Handlers
pub mod Loop
use rate_x_rate_limiter_web.Base.{ℕ, String, Option, none, List, []}
use rate_x_rate_limiter_web.Model.{
  Policy, PolicyDraft, ApiKey, KeyDraft, RoutePolicy, NewRoute, RequestEvent, RouteSummary,
  TimeBucket, Stats,
}
use rate_x_rate_limiter_web.Api.Calls.{Call}
use rate_x_rate_limiter_web.Api.Demo.{DemoResult}

pub data Page : Type 0 where
  overview keys policies routes analytics playground docs : Page

pub data Range : Type 0 where
  min_30 hour_1 hour_6 hour_24 : Range

-- What `load` and the handlers read of the render that they were made in.
pub record Closure : Type 0 where
  pub message : String
  pub key_policy : String
  pub route_policy : String
  pub event_limit : ℕ

-- The argument of `confirmAction`; its `onConfirm` is `action` of one call.
pub record Confirm : Type 0 where
  pub title : String
  pub message : String
  pub confirm_text : Option String
  pub call : Call
  pub closure : Closure

pub record State : Type 0 where
  pub stats : Stats
  pub timeline : List TimeBucket
  pub top_routes : List RouteSummary
  pub events : List RequestEvent
  pub policies : List Policy
  pub route_policies : List RoutePolicy
  pub keys : List ApiKey
  pub created_key : String
  pub message : String
  pub confirm : Option Confirm
  pub test_result : Option DemoResult
  pub current_page : Page
  pub active_range : Range
  pub event_limit : ℕ
  pub new_policy : PolicyDraft
  pub new_key : KeyDraft
  pub new_route : NewRoute

abbrev pub no_stats : Stats
no_stats = record { requests = 0; allowed = 0; rejected = 0 }

abbrev pub empty_policy : PolicyDraft
empty_policy = record {
  name = "";
  algorithm = "token_bucket";
  request_limit = 100;
  window_seconds = 60;
  burst_capacity = 100;
}

abbrev pub initial : State
initial = record {
  stats = no_stats;
  timeline = [];
  top_routes = [];
  events = [];
  policies = [];
  route_policies = [];
  keys = [];
  created_key = "";
  message = "";
  confirm = none;
  test_result = none;
  current_page = overview;
  active_range = min_30;
  event_limit = 30;
  new_policy = empty_policy;
  new_key = record { name = "Demo application"; policy_id = "" };
  new_route = record { method = "GET"; route_pattern = "/v1/products"; policy_id = "" };
}

abbrev pub closure_of : State → Closure
closure_of s = record {
  message = s.message;
  key_policy = s.new_key.policy_id;
  route_policy = s.new_route.policy_id;
  event_limit = s.event_limit;
}
