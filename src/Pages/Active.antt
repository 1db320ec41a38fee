-- ===== src/Pages/Active.antt =====
-- What the frame and the playground show as chosen.
use rate_x_rate_limiter_web.Base.{◌≡◌, refl, [], ◌∷◌, Option, String}
use rate_x_rate_limiter_web.Api.{Json}
use rate_x_rate_limiter_web.Api.Demo.{DemoResult}
use rate_x_rate_limiter_web.App.{
  Page, overview, keys, policies, routes, analytics, playground, docs, Range, min_30, hour_1,
  hour_6, hour_24,
}
use rate_x_rate_limiter_web.Panels.Tester.{Tester, Tab, response, headers, rate, curl}
use rate_x_rate_limiter_web.Pages.View.{active, buttons_of}
use rate_x_rate_limiter_web.Pages.Frame.{sidebar, chart_heading}
use rate_x_rate_limiter_web.Pages.Playground.{choose_tab, request_tester}

active-sidebar : (p : Page) → active (sidebar p) ≡ p ∷ []
unfolding sidebar buttons_of
active-sidebar overview = refl
active-sidebar keys = refl
active-sidebar policies = refl
active-sidebar routes = refl
active-sidebar analytics = refl
active-sidebar playground = refl
active-sidebar docs = refl

active-chart_heading : (r : Range) → active (chart_heading (λ (x : Range). x) r) ≡ r ∷ []
unfolding chart_heading buttons_of
active-chart_heading min_30 = refl
active-chart_heading hour_1 = refl
active-chart_heading hour_6 = refl
active-chart_heading hour_24 = refl

active-request_tester :
    (stringify : Json → String) (m url : String) (tab : Tab) (result : Option DemoResult)
    → active (request_tester stringify (record { method = m; url = url; active_tab = tab }) result)
      ≡ choose_tab tab ∷ []
unfolding request_tester buttons_of
active-request_tester stringify m url response result = refl
active-request_tester stringify m url headers result = refl
active-request_tester stringify m url rate result = refl
active-request_tester stringify m url curl result = refl

-- Whatever is chosen, exactly one button is shown as active and a click on it chooses the same again:
-- among the pages of the sidebar, the ranges of the chart, and the tabs of the request tester.
pub active-chosen :
    (p : Page) (r : Range) (stringify : Json → String) (t : Tester) (result : Option DemoResult)
    → (active (sidebar p) ≡ p ∷ [])
      × ((active (chart_heading (λ (x : Range). x) r) ≡ r ∷ [])
          × (active (request_tester stringify t result) ≡ choose_tab t.active_tab ∷ []))
active-chosen p r stringify t result = (
  active-sidebar p,
  (active-chart_heading r, active-request_tester stringify t.method t.url t.active_tab result),
)
