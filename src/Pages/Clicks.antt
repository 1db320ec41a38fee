-- ===== src/Pages/Clicks.antt =====
-- Where the buttons of the overview and of the analytics lead.
use rate_x_rate_limiter_web.Base.{
  ◌≡◌, refl, ap, ◌∙◌, ℕ, String, Bool, true, false, List, [], ◌∷◌, ◌++◌, map, if◌then◌else◌,
}
use rate_x_rate_limiter_web.Model.{RequestEvent, RouteSummary, Stats}
use rate_x_rate_limiter_web.App.{Range, analytics}
use rate_x_rate_limiter_web.App.Handlers.{Event, set_range, load_more, navigate}
use rate_x_rate_limiter_web.Panels.Shell.{
  EventLine, RouteLine, EventsView, overview_events, analytics_events, next_range, ranges,
}
use rate_x_rate_limiter_web.Pages.View.{
  View, Views, end, ◌&◌, each, Button, buttons, buttons_of, clicks,
}
use rate_x_rate_limiter_web.Pages.Home.{
  event_item, usage_row, empty_state, events_view, overview_page, analytics_page,
}

-- The buttons of a list whose items have none.
buttons-each :
    {B : Type 0} (f : B → View Event) (bs : List B) (rest : Views Event)
    → ((b : B) → buttons_of (f b) ≡ [])
    → buttons (each f bs rest) ≡ buttons rest
unfolding buttons
buttons-each f [] rest h = refl
buttons-each f (b ∷ bs) rest h = rw (h b) (buttons-each f bs rest h)

buttons-empty_state :
    (none : Bool) (title description : String)
    → buttons (if none then empty_state title description else end) ≡ []
unfolding buttons
buttons-empty_state true title description = refl
buttons-empty_state false title description = refl

buttons-items :
    (lines : List EventLine) (none : Bool) (title description : String)
    → buttons (each event_item lines (if none then empty_state title description else end)) ≡ []
unfolding buttons
buttons-items lines none title description =
    buttons-each event_item lines _ (λ e. refl) ∙ buttons-empty_state none title description

buttons-rows :
    (rows : List RouteLine) (none : Bool) (title description : String)
    → buttons (each usage_row rows (if none then empty_state title description else end)) ≡ []
unfolding buttons
buttons-rows rows none title description =
    buttons-each usage_row rows _ (λ r. refl) ∙ buttons-empty_state none title description

buttons-events_view :
    (v : EventsView)
    → map (λ (b : Button Event). b.on_click) (buttons (events_view v & end))
      ≡ v.on_requests ∷ v.on_routes ∷ []
unfolding events_view buttons
buttons-events_view v =
    rw
      (
        buttons-items v.lines v.no_events "No request events yet."
            "Requests will appear here once traffic is received.",
        buttons-rows v.route_lines v.no_routes "No route data yet."
            "Top routes will appear here once traffic is received.",
      )
      refl

-- Whatever is shown, the buttons of the overview choose the four ranges and lead twice to the
-- analytics; those of the analytics choose the next range and the four ranges, and ask twice for more
-- requests, also the one over the top routes.
pub clicks-pages :
    (of_text : String → String) (locale : ℕ → String) (stats : Stats)
    → (events : List RequestEvent) (top : List RouteSummary) (current : Range)
    → (clicks (overview_page of_text locale stats events top current)
        ≡ map set_range ranges ++ (navigate analytics ∷ navigate analytics ∷ []))
      × (clicks (analytics_page of_text locale stats events top current)
          ≡ set_range (next_range current) ∷ (map set_range ranges ++ (load_more ∷ load_more ∷ [])))
unfolding overview_page analytics_page buttons
clicks-pages of_text locale stats events top current = (
  ap (λ rest. map set_range ranges ++ rest) (buttons-events_view (overview_events events top)),
  ap (λ rest. set_range (next_range current) ∷ (map set_range ranges ++ rest))
      (buttons-events_view (analytics_events events top)),
)
