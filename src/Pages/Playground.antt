-- ===== src/Pages/Playground.antt =====
-- What frontend/src/components/RequestTester.jsx renders, and what its buttons and fields do.
use rate_x_rate_limiter_web.Base.{String, Option, List, [], ◌∷◌, if◌then◌else◌, str_eq}
use rate_x_rate_limiter_web.Text.{join, show}
use rate_x_rate_limiter_web.Api.{Json}
use rate_x_rate_limiter_web.Api.Demo.{DemoResult}
use rate_x_rate_limiter_web.Panels.Tester.{
  Tester, Tab, response, headers, rate, curl, Display, display_of, is_ok, tab_content, try_sample,
}
use rate_x_rate_limiter_web.Pages.View.{
  View, words, part, button, input, select, end, ◌&◌, says, each, plain,
}
use rate_x_rate_limiter_web.Pages.Frame.{page_hero}

pub data Act : Type 0 where
  choose_method : String → Act
  type_url : String → Act
  choose_tab : Tab → Act
  try_it : String → String → Act
  send copy : Act

-- The panel after an act.
unfoldable pub act : Tester → Act → Tester
unfolding try_sample
act t (choose_method m) = record t { method = m }
act t (type_url url) = record t { url = url }
act t (choose_tab tab) = record t { active_tab = tab }
act t (try_it method route) = try_sample t method route
act t send = t
act t copy = t

abbrev pub methods : List String
methods = "GET" ∷ "POST" ∷ "PUT" ∷ "PATCH" ∷ "DELETE" ∷ "HEAD" ∷ "OPTIONS" ∷ []

abbrev pub tab_id : Tab → String
tab_id response = "response"
tab_id headers = "headers"
tab_id rate = "rate"
tab_id curl = "curl"

abbrev pub tab_button : Tab → Tab → String → View Act
tab_button current tab name =
    button (if str_eq (tab_id current) (tab_id tab) then "active" else "") (choose_tab tab)
      (words name & end)

-- The samples: method, route and text.
abbrev pub samples : List (String × String × String)
samples =
    ("GET", "/v1/products", "Test rate limiting")
    ∷ ("GET", "/v1/products?page=1", "Test with query params")
    ∷ ("POST", "/v1/products", "Test different method")
    ∷ []

-- `Sample`; the samples with POST have another tone.
abbrev pub tone_of : String → String
tone_of method = if str_eq method "POST" then "purple" else "green"

abbrev pub sample : String × String × String → View Act
sample (method, route, description) = part "div" "sample-request" (
    part "mark" (join ("method-badge " ∷ tone_of method ∷ [])) (words method & end)
    & part "div" "" (says "strong" route & says "small" description & end)
    & button "secondary-action compact-action" (try_it method route) (words " Try" & end)
    & end)

abbrev pub checks : List String
checks =
    "HTTP status code (200, 429, etc.)" ∷ "Rate limit headers (X-RateLimit-*)"
    ∷ "Remaining requests count" ∷ "Retry-After header (if limited)" ∷ "Response time and payload"
    ∷ []

abbrev pub check_item : String → View Act
check_item item = part "span" "check-item" (words " " & words item & end)

abbrev pub heading : String → String → View Act
heading title description =
    part "div" "heading-left" (part "div" "" (says "h2" title & says "p" description & end) & end)

abbrev pub request_line : Tester → View Act
request_line t = part "div" "request-line" (
    select t.method (plain methods) choose_method
    & input t.url type_url
    & button "send-button" send (words " Send request" & end)
    & end)

abbrev pub tabs : Tester → Display → View Act
tabs t d = part "div" "response-tabs" (
    tab_button t.active_tab response "Response"
    & tab_button t.active_tab headers "Headers"
    & tab_button t.active_tab rate "Rate Limit"
    & tab_button t.active_tab curl "cURL"
    & part "span" (if is_ok d then "ok-status" else "error-status")
        (words (join (" " ∷ show d.status ∷ " " ∷ d.status_text ∷ [])) & end)
    & part "span" "" (words (join (" " ∷ show d.duration_ms ∷ " ms" ∷ [])) & end)
    & part "span" "" (words (join (" " ∷ show d.size_bytes ∷ " B" ∷ [])) & end)
    & end)

unfoldable pub request_tester : (Json → String) → Tester → Option DemoResult → View Act
unfolding display_of tab_content
request_tester stringify t result = part "section" "playground-grid" (
    part "section" "panel tester-console" (
      part "div" "panel-heading" (
        heading "Request Tester" "Call the protected demo endpoint and see rate-limit headers."
        & end)
      & request_line t
      & tabs t (display_of result)
      & part "pre" "code-window" (
          button "copy-code" copy (words " Copy" & end)
          & words (tab_content stringify t result)
          & end)
      & end)
    & part "aside" "playground-side" (
        part "section" "panel" (
          heading "Example Requests" "Try these sample requests."
          & part "div" "sample-list" (each sample samples end)
          & end)
        & part "section" "panel checklist-card"
            (heading "What to Look For" "Check these in the response." & each check_item checks end)
        & end)
    & end)

-- `PlaygroundPage`
unfoldable pub playground_page : (Json → String) → Tester → Option DemoResult → View Act
unfolding request_tester page_hero
playground_page stringify t result = part "div" "page-stack" (
    page_hero "Live testing" "Playground"
      "Send requests to the protected demo endpoint and inspect status codes plus rate limit headers."
      "Test rate limits in real time"
      "See how RateX responds with headers, limits, and status codes."
    & request_tester stringify t result
    & end)
