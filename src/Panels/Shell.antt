-- ===== src/Panels/Shell.antt =====
-- The frame and the smaller parts: frontend/src/components/Sidebar.jsx, Topbar.jsx,
-- ConfirmDialog.jsx, EventsPanel.jsx, TrafficChart.jsx, and the pages Overview and Analytics.
pub mod Laws
use rate_x_rate_limiter_web.Base.{
  ℕ, String, Bool, true, false, Option, none, some, List, [], ◌∷◌, map, length, take, ◌==◌,
  if◌then◌else◌, not,
}
use rate_x_rate_limiter_web.Text.{join, or_text, show}
use rate_x_rate_limiter_web.Model.{RequestEvent, RouteSummary}
use rate_x_rate_limiter_web.App.{
  Page, overview, keys, policies, routes, analytics, playground, docs, Range, min_30, hour_1,
  hour_6, hour_24, Confirm,
}
use rate_x_rate_limiter_web.App.Handlers.{
  Event, notify, navigate, load_more, cancel_confirm, run_confirmed,
}

-- Sidebar.jsx: the entries of the navigation with their labels.
abbrev pub items : List (Page × String)
items =
    (overview, "Overview")
    ∷ (keys, "API Keys")
    ∷ (policies, "Policies")
    ∷ (routes, "Routes")
    ∷ (analytics, "Analytics")
    ∷ (playground, "Playground")
    ∷ (docs, "Documentation")
    ∷ []

-- Topbar.jsx: the hint of the search field.
abbrev pub placeholder : Page → String
placeholder overview = "Search policies, keys, routes..."
placeholder keys = "Search policies, keys, routes..."
placeholder policies = "Search policies, keys, routes..."
placeholder routes = "Search routes, methods, paths..."
placeholder analytics = "Search anything..."
placeholder playground = "Search endpoints, keys, routes..."
placeholder docs = "Search documentation..."

-- `toggleTheme`: whether the body has the class `soft-contrast`, and the event for `App`.
unfoldable pub toggle_theme : Bool → Bool × Event
toggle_theme soft = (not soft, notify "Theme preference updated")

-- ConfirmDialog.jsx: nothing for no question; else the title, the text and the label of the button
-- that consents. `confirmText` is never empty where it is given.
pub record Dialog : Type 0 where
  pub title : String
  pub message : String
  pub accept : String
  pub on_cancel : Event
  pub on_accept : Event

abbrev label : Option String → String
label none = "Delete"
label (some t) = or_text t "Delete"

unfoldable pub dialog : Option Confirm → Option Dialog
dialog none = none
dialog (some c) = some (record {
  title = c.title;
  message = c.message;
  accept = label c.confirm_text;
  on_cancel = cancel_confirm;
  on_accept = run_confirmed;
})

-- AnalyticsPage.jsx: the range button goes to the next range.
unfoldable pub next_range : Range → Range
next_range min_30 = hour_1
next_range hour_1 = hour_6
next_range hour_6 = hour_24
next_range hour_24 = min_30

abbrev pub range_label : Range → String
range_label min_30 = "30 minutes"
range_label hour_1 = "1h"
range_label hour_6 = "6h"
range_label hour_24 = "24h"

-- TrafficChart.jsx: the segments.
abbrev pub ranges : List Range
ranges = min_30 ∷ hour_1 ∷ hour_6 ∷ hour_24 ∷ []

-- EventsPanel.jsx: a line for each request, and a note where there is none.
pub record EventLine : Type 0 where
  pub allowed_line : Bool
  pub status : String
  pub target : String
  pub detail : String

unfoldable pub event_line : RequestEvent → EventLine
event_line e = record {
  allowed_line = e.allowed;
  status = if e.allowed then "Allowed" else "Rejected";
  target = join (e.method ∷ " " ∷ e.route ∷ []);
  detail = join (
      e.identity_type
      ∷ " "
      ∷ e.identity_value
      ∷ " | "
      ∷ e.policy_name
      ∷ " | "
      ∷ show e.duration_ms
      ∷ "ms"
      ∷ []);
}

pub record RouteLine : Type 0 where
  pub route : String
  pub allowed : String
  pub rejected : String
  pub total : String

unfoldable pub route_line : RouteSummary → RouteLine
route_line r = record {
  route = r.route;
  allowed = show r.allowed;
  rejected = show r.rejected;
  total = show r.total;
}

pub record EventsView : Type 0 where
  pub lines : List EventLine
  pub no_events : Bool
  pub route_lines : List RouteLine
  pub no_routes : Bool
  pub on_requests : Event
  pub on_routes : Event

-- `onViewAllRoutes || onViewAllRequests`
abbrev or_event : Option Event → Event → Event
or_event none e = e
or_event (some f) e = f

unfoldable pub events_panel :
    List RequestEvent → List RouteSummary → Event → Option Event → EventsView
unfolding event_line route_line
events_panel events top on_requests on_routes = record {
  lines = map event_line events;
  no_events = length events == 0;
  route_lines = map route_line top;
  no_routes = length top == 0;
  on_requests = on_requests;
  on_routes = or_event on_routes on_requests;
}

-- OverviewPage.jsx shows the first eight requests; both links lead to the analytics.
unfoldable pub overview_events : List RequestEvent → List RouteSummary → EventsView
unfolding events_panel
overview_events events top =
    events_panel (take 8 events) top (navigate analytics) (some (navigate analytics))

-- AnalyticsPage.jsx shows all that was loaded; both links ask for more.
unfoldable pub analytics_events : List RequestEvent → List RouteSummary → EventsView
unfolding events_panel
analytics_events events top = events_panel events top load_more none
