-- ===== src/Pages/Home.antt =====
-- What frontend/src/pages/OverviewPage.jsx, AnalyticsPage.jsx and components/EventsPanel.jsx render. The
-- chart under its heading is drawn by a library.
use rate_x_rate_limiter_web.Base.{ℕ, String, List, [], ◌∷◌, if◌then◌else◌}
use rate_x_rate_limiter_web.Text.{join}
use rate_x_rate_limiter_web.Model.{RequestEvent, RouteSummary, Stats}
use rate_x_rate_limiter_web.App.{Range}
use rate_x_rate_limiter_web.App.Handlers.{Event, set_range}
use rate_x_rate_limiter_web.Panels.Shell.{
  EventLine, RouteLine, EventsView, overview_events, analytics_events, next_range, range_label,
}
use rate_x_rate_limiter_web.Pages.View.{View, Views, words, part, button, end, ◌&◌, says, each}
use rate_x_rate_limiter_web.Pages.Frame.{number, label, metric, chart_heading}

abbrev pub panel_heading : String → String → Event → View Event
panel_heading title description on_click = part "div" "panel-heading compact" (
    part "div" "heading-left" (part "div" "" (says "h2" title & says "p" description & end) & end)
    & button "secondary-action compact-action" on_click (words "View all " & end)
    & end)

abbrev pub event_item : EventLine → View Event
event_item e = part "div" "event-item" (
    part "span" (join ("status " ∷ (if e.allowed_line then "allowed" else "rejected") ∷ []))
      (words e.status & end)
    & says "strong" e.target
    & says "small" e.detail
    & end)

abbrev pub usage_row : RouteLine → View Event
usage_row r = part "div" "row usage-row" (
    says "span" r.route
    & says "span" r.allowed
    & says "span" r.rejected
    & says "span" r.total
    & end)

abbrev pub empty_state : String → String → Views Event
empty_state title description =
    part "div" "empty-state slim" (says "span" title & says "small" description & end) & end

-- `EventsPanel`
unfoldable pub events_view : EventsView → View Event
events_view v = part "section" "split-grid" (
    part "section" "panel" (
      panel_heading "Recent Requests" "Latest protected endpoint decisions." v.on_requests
      & part "div" "event-list" (
          each event_item v.lines (
            if v.no_events
            then empty_state "No request events yet."
                "Requests will appear here once traffic is received."
            else end))
      & end)
    & part "section" "panel" (
        panel_heading "Top Routes" "Most active routes in the last hour." v.on_routes
        & part "div" "table route-usage" (
            part "div" "table-head usage-head" (
              says "span" "Route"
              & says "span" "Allowed"
              & says "span" "Rejected"
              & says "span" "Total"
              & end)
            & each usage_row v.route_lines (
                if v.no_routes
                then empty_state "No route data yet."
                    "Top routes will appear here once traffic is received."
                else end))
        & end)
    & end)

module _ (of_text : String → String) (locale : ℕ → String) where
  abbrev pub count_metrics : Stats → Views Event → Views Event
  count_metrics stats rest =
      metric of_text locale "blue" "Total Requests" (number stats.requests)
      & metric of_text locale "green" "Allowed Requests" (number stats.allowed)
      & metric of_text locale "red" "Rejected Requests" (number stats.rejected)
      & rest

  abbrev pub chart_panel : Range → View Event
  chart_panel current = part "section" "panel chart-panel" (chart_heading set_range current & end)

  -- `OverviewPage`
  unfoldable pub overview_page : Stats → List RequestEvent → List RouteSummary → Range → View Event
  unfolding metric chart_heading events_view overview_events
  overview_page stats events top current = part "div" "page-stack overview-page" (
      part "section" "hero" (
        part "div" "hero-copy" (
          part "span" "pill" (words "Distributed API rate limiting" & end)
          & says "h1" "Control traffic across Go instances with shared Redis state."
          & says "p" "Simple. Scalable. Reliable. Keep your APIs fair and fast with RateX."
          & end)
        & part "div" "scale-card" (
            part "div" "" (
              says "strong" "Built for scale"
              & says "span" "Route policies, telemetry, API keys, and live enforcement."
              & end)
            & end)
        & end)
      & part "section" "metrics-grid" (count_metrics stats end)
      & chart_panel current
      & events_view (overview_events events top)
      & end)

  -- `AnalyticsPage`
  unfoldable pub analytics_page : Stats → List RequestEvent → List RouteSummary → Range → View Event
  unfolding metric chart_heading events_view analytics_events next_range
  analytics_page stats events top current = part "div" "page-stack" (
      part "section" "analytics-heading" (
        part "section" "page-header" (
          part "span" "pill" (words "Observability" & end)
          & says "h1" "Analytics"
          & says "p" "Inspect request history, rejected traffic, and the busiest protected routes."
          & end)
        & part "div" "range-select" (
            button "secondary-action" (set_range (next_range current))
              (words (join (" Last " ∷ range_label current ∷ [])) & end)
            & says "small" "Showing data for the selected range."
            & end)
        & end)
      & part "section" "metrics-grid analytics-metrics" (
          count_metrics stats
            (metric of_text locale "purple" "Avg. Response Time" (label "0 ms") & end))
      & chart_panel current
      & events_view (analytics_events events top)
      & end)
