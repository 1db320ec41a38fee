-- ===== src/Pages/Frame.antt =====
-- frontend/src/components/Sidebar.jsx, TrafficChart.jsx, Metric.jsx and PageHero.jsx.
use rate_x_rate_limiter_web.Base.{ℕ, String, [], ◌∷◌, if◌then◌else◌, str_eq}
use rate_x_rate_limiter_web.Text.{join, show}
use rate_x_rate_limiter_web.App.{
  Page, overview, keys, policies, routes, analytics, playground, docs, Range, min_30, hour_1,
  hour_6, hour_24,
}
use rate_x_rate_limiter_web.Panels.Shell.{items, ranges}
use rate_x_rate_limiter_web.Pages.View.{View, words, part, button, end, ◌&◌, says, each}

-- The names of the pages and of the ranges.
abbrev pub page_id : Page → String
page_id overview = "overview"
page_id keys = "keys"
page_id policies = "policies"
page_id routes = "routes"
page_id analytics = "analytics"
page_id playground = "playground"
page_id docs = "docs"

abbrev pub range_id : Range → String
range_id min_30 = "30m"
range_id hour_1 = "1h"
range_id hour_6 = "6h"
range_id hour_24 = "24h"

abbrev pub brand : {A : Type 0} → View A
brand =
    part "div" "brand"
      (part "div" "" (says "strong" "RateX" & says "span" "API Rate Limiting" & end) & end)

abbrev pub connection : {A : Type 0} → View A
connection = part "div" "connection" (
    part "div" "" (says "strong" "Backend Connected" & says "small" "Telemetry enabled" & end)
    & end)

abbrev pub nav_button : Page → Page × String → View Page
nav_button current (p, name) =
    button (if str_eq (page_id current) (page_id p) then "active" else "") p (words name & end)

-- `Sidebar`; a click goes to a page.
unfoldable pub sidebar : Page → View Page
sidebar current =
    part "aside" "sidebar"
      (brand & part "nav" "" (each (nav_button current) items end) & connection & end)

abbrev pub segment : {A : Type 0} → (Range → A) → Range → Range → View A
segment on_range_change current r =
    button (if str_eq (range_id current) (range_id r) then "active" else "") (on_range_change r)
      (words (range_id r) & end)

-- The heading of `TrafficChart`.
unfoldable pub chart_heading : {A : Type 0} → (Range → A) → Range → View A
chart_heading on_range_change current = part "div" "panel-heading" (
    part "div" "heading-left" (
      part "div" ""
        (says "h2" "Traffic Shape" & says "p" "Live request timeline from backend telemetry." & end)
      & end)
    & part "div" "segments" (each (segment on_range_change current) ranges end)
    & end)

-- `PageHero`
unfoldable pub page_hero : {A : Type 0} → String → String → String → String → String → View A
page_hero badge title description banner_title banner_text = part "section" "page-hero" (
    part "section" "page-header"
      (part "span" "pill" (words badge & end) & says "h1" title & says "p" description & end)
    & part "div" "feature-banner"
        (part "div" "" (says "strong" banner_title & says "p" banner_text & end) & end)
    & end)

-- What `Metric` is given: a number, or a text.
pub data Value : Type 0 where
  number : ℕ → Value
  label : String → Value

-- `Number(value || 0).toLocaleString()`, with what it is for a text and for a number.
unfoldable pub counted : (String → String) → (ℕ → String) → Value → String
counted of_text locale (number n) = locale n
counted of_text locale (label t) = if str_eq t "" then locale 0 else of_text t

abbrev pub bar : {A : Type 0} → ℕ → View A
bar height = part "i" (join ("height: " ∷ show height ∷ "%" ∷ [])) end

abbrev pub mini_bars : {A : Type 0} → String → View A
mini_bars tone =
    part "div" (join ("mini-bars " ∷ tone ∷ [])) (each bar (35 ∷ 58 ∷ 82 ∷ 100 ∷ 72 ∷ 88 ∷ []) end)

unfoldable pub metric :
    {A : Type 0} → (String → String) → (ℕ → String) → String → String → Value → View A
unfolding counted
metric of_text locale tone name value = part "article" (join ("metric " ∷ tone ∷ [])) (
    part "div" "" (
      says "p" name
      & says "strong" (counted of_text locale value)
      & part "small" "" (words " live " & says "em" "last session" & end)
      & end)
    & mini_bars tone
    & end)
