-- ===== src/App/Load.antt =====
-- `safeLoad` and `load` of frontend/src/App.jsx. The seven answers arrive together, as
-- `Promise.all` hands them over; the setters then run in the order of the source.
use rate_x_rate_limiter_web.Base.{
  String, Bool, true, false, Option, none, some, List, [], ◌∷◌, Result, ok, err, keep, length, ltb,
  if◌then◌else◌,
}
use rate_x_rate_limiter_web.Text.{is_empty, starts_with}
use rate_x_rate_limiter_web.Model.{
  Policy, ApiKey, RoutePolicy, RequestEvent, RouteSummary, TimeBucket, Stats,
}
use rate_x_rate_limiter_web.Api.Calls.{
  Call, get_stats, get_policies, get_keys, get_events, get_route_policies, get_top_routes,
  get_timeline,
}
use rate_x_rate_limiter_web.App.{State, Closure, no_stats}

-- `{ value, error }`
pub record Settled (A : Type 0) : Type 0 where
  pub value : A
  pub error : Option String

unfoldable pub safe_load : {A : Type 0} → Result A → A → Settled A
safe_load (ok v) fallback = record { value = v; error = none }
safe_load (err e) fallback = record { value = fallback; error = some e }

-- What the seven calls of `load` settle with.
pub record Answers : Type 0 where
  pub stats : Result Stats
  pub policies : Result (List Policy)
  pub keys : Result (List ApiKey)
  pub events : Result (List RequestEvent)
  pub routes : Result (List RoutePolicy)
  pub top_routes : Result (List RouteSummary)
  pub timeline : Result (List TimeBucket)

-- The calls that `load` makes, with the number of events of its render.
unfoldable pub load_calls : Closure → List Call
load_calls c =
    get_stats
    ∷ get_policies
    ∷ get_keys
    ∷ get_events c.event_limit
    ∷ get_route_policies
    ∷ get_top_routes
    ∷ get_timeline
    ∷ []

abbrev pub unavailable : String
unavailable = "Some API data is unavailable. Restart the Go server after the latest changes."

abbrev is_error : Option String → Bool
is_error none = false
is_error (some e) = true

-- The errors among the answers.
unfoldable pub failures : Answers → List (Option String)
unfolding safe_load
failures a = keep is_error (
    (safe_load a.stats no_stats).error
    ∷ (safe_load a.policies []).error
    ∷ (safe_load a.keys []).error
    ∷ (safe_load a.events []).error
    ∷ (safe_load a.routes []).error
    ∷ (safe_load a.top_routes []).error
    ∷ (safe_load a.timeline []).error
    ∷ [])

-- The message that `load` sets, or the one that stands.
unfoldable pub loaded_message : Closure → Answers → String → String
loaded_message c a message =
    if ltb 0 (length (failures a))
    then unavailable
    else if starts_with c.message "Some API data"
    then ""
    else message

-- `!form.policy_id && policyData.value[0]`, and the identifier that is set then.
abbrev pub default_policy : String → List Policy → String → String
default_policy captured [] current = current
default_policy captured (p ∷ ps) current = if is_empty captured then p.id else current

unfoldable pub load : Closure → Answers → State → State
unfolding safe_load
load c a s =
    let policies = (safe_load a.policies []).value in
    record s {
      stats = (safe_load a.stats no_stats).value;
      policies = policies;
      keys = (safe_load a.keys []).value;
      events = (safe_load a.events []).value;
      route_policies = (safe_load a.routes []).value;
      top_routes = (safe_load a.top_routes []).value;
      timeline = (safe_load a.timeline []).value;
      message = loaded_message c a s.message;
      new_key = record (s.new_key) {
        policy_id = default_policy c.key_policy policies s.new_key.policy_id;
      };
      new_route = record (s.new_route) {
        policy_id = default_policy c.route_policy policies s.new_route.policy_id;
      };
    }
