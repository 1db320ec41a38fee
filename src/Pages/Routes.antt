-- ===== src/Pages/Routes.antt =====
-- frontend/src/pages/RoutesPage.jsx and the markup of frontend/src/components/RoutePolicyPanel.jsx,
-- with what its buttons and fields do.
use rate_x_rate_limiter_web.Base.{
  ℕ, ◌≡◌, refl, String, Bool, List, [], ◌∷◌, ◌++◌, map, length, Option, none, some, ◌==◌,
  if◌then◌else◌, str_eq, Bool-cases, inl, inr, ap, ◌∙◌,
}
use rate_x_rate_limiter_web.Text.{show, join, or_text}
use rate_x_rate_limiter_web.Model.{Policy, RoutePolicy, NewRoute, RouteDraft}
use rate_x_rate_limiter_web.Panels.Routes.{
  methods, FormEdit, fill_example, RowEdit, Panel, Action, search, start_edit, edit, cancel_edit,
  save_edit, filtered_routes, limit_of, empty_note,
}
use rate_x_rate_limiter_web.Pages.View.{
  View, Views, words, part, button, input, select, end, ◌&◌, says, each, plain, buttons, buttons_of,
  clicks, clicks_in, clicks_each, clicks-listed, map-append, Button,
}
use rate_x_rate_limiter_web.Pages.Frame.{page_hero}
use rate_x_rate_limiter_web.Pages.Policies.{heading, labeled, pager}

pub data Act : Type 0 where
  fill : FormEdit → Act
  submit : Act
  work : Action → Act
  remove : RoutePolicy → Act
  docs : Act

-- A policy is chosen by its identifier and shown by its name.
abbrev pub choices : List Policy → List (String × String)
choices policies = map (λ (p : Policy). (p.id, p.name)) policies

unfoldable pub create_card : NewRoute → List Policy → View Act
create_card d policies = part "section" "panel route-create-card" (
    heading "Add Route Policy" "Define a route and attach a policy to control request limits."
      (button "secondary-action compact-action" (fill fill_example) (words " View Examples" & end))
    & part "form" "route-form labeled" (
        labeled "HTTP Method" (select d.method (plain methods) (λ v. fill (FormEdit.method v)))
        & part "label" "" (
            says "span" "Route Path"
            & input d.route_pattern (λ v. fill (FormEdit.route_pattern v))
            & says "small" "Use path parameters for dynamic routes, e.g. /v1/users/:id"
            & end)
        & labeled "Policy"
            (select d.policy_id (choices policies) (λ v. fill (FormEdit.policy_id v)))
        & button "primary-action attach-button" submit (words " Attach Policy" & end)
        & end)
    & end)

-- The cells of a row that is edited; the limit is that of the stored policy.
abbrev field_cells : RouteDraft → List Policy → String → Views Act → Views Act
field_cells d policies limit rest =
    part "span" "" (select d.method (plain methods) (λ v. work (edit (RowEdit.method v))) & end)
    & part "span" "" (input d.route_pattern (λ v. work (edit (RowEdit.route_pattern v))) & end)
    & part "span" ""
        (select d.policy_id (choices policies) (λ v. work (edit (RowEdit.policy_id v))) & end)
    & says "span" limit
    & rest

abbrev text_cells : RoutePolicy → String → Views Act → Views Act
text_cells r limit rest =
    part "span" "" (part "mark" "method-badge" (words r.method & end) & end)
    & says "span" r.route_pattern
    & part "span" "" (says "mark" (or_text r.policy_name r.policy_id) & end)
    & says "span" limit
    & rest

abbrev row_actions : Bool → RoutePolicy → Views Act
row_actions edited r =
    if edited
    then button "edit-icon" (work (save_edit r.id)) end
      & button "secondary-icon" (work cancel_edit) end
      & end
    else button "edit-icon" (work (start_edit r)) end & button "danger-icon" (remove r) end & end

unfoldable pub table_row : Panel → List Policy → RoutePolicy → View Act
table_row s policies r =
    let edited = str_eq s.editing_id r.id in
    let actions = part "span" "action-pair" (row_actions edited r) & end in
    let limit = limit_of policies r.policy_id in
    part "div" "row route-row"
      (if edited then field_cells s.draft policies limit actions else text_cells r limit actions)

-- "Showing … to … of … routes"
abbrev footer : ℕ → ℕ → String
footer shown all = join (
    "Showing "
    ∷ show (if shown == 0 then 0 else 1)
    ∷ " to "
    ∷ show shown
    ∷ " of "
    ∷ show all
    ∷ " routes"
    ∷ [])

abbrev noted : Option String → Views Act → Views Act
noted none rest = rest
noted (some note) rest = part "div" "empty-state slim" (words note & end) & rest

unfoldable pub list_card : Panel → List Policy → List RoutePolicy → View Act
list_card s policies routes =
    let shown = filtered_routes routes s.query in
    part "section" "panel route-list-card" (
      heading "Configured Route Policies" "List of endpoint specific rate limiting rules."
        (part "label" "table-search" (input s.query (λ v. work (search v)) & end))
      & part "div" "table route-table" (
          part "div" "table-head route-head" (
            says "span" "Method"
            & says "span" "Route"
            & says "span" "Policy"
            & says "span" "Limit"
            & says "span" "Actions"
            & end)
          & each (table_row s policies) shown (
              noted (empty_note s routes) (
                part "div" "table-footer"
                  (says "span" (footer (length shown) (length routes)) & pager & end)
                & end)))
      & end)

unfoldable pub help_panel : View Act
help_panel = part "section" "panel help-card full-help" (
    part "div" "" (
      says "h2" "Need help?"
      & says "p" "Check out our documentation to learn more about route policies and examples."
      & end)
    & button "secondary-action" docs (words "View Documentation" & end)
    & end)

unfoldable pub routes_page : NewRoute → Panel → List Policy → List RoutePolicy → View Act
routes_page d s policies routes = part "div" "page-stack" (
    page_hero "Endpoint rules" "Route Policies"
      "Attach specific policies to HTTP methods and paths such as GET /v1/products."
      "Fine-grained control" "Set custom rate limits for each endpoint and HTTP method."
    & create_card d policies
    & list_card s policies routes
    & help_panel
    & end)

abbrev pub row_clicks : Panel → RoutePolicy → List Act
row_clicks s r =
    if str_eq s.editing_id r.id
    then work (save_edit r.id) ∷ work cancel_edit ∷ []
    else work (start_edit r) ∷ remove r ∷ []

clicks-table_row :
    (s : Panel) (policies : List Policy) (r : RoutePolicy)
    → clicks (table_row s policies r) ≡ row_clicks s r
unfolding table_row buttons
clicks-table_row s policies r = elim (Bool-cases (str_eq s.editing_id r.id)) [
  | inl edited ↦ rw edited refl
  | inr other ↦ rw other refl
]

clicks-noted :
    (note : Option String) (rest : Views Act) → clicks_in (noted note rest) ≡ clicks_in rest
unfolding buttons
clicks-noted none rest = refl
clicks-noted (some note) rest = refl

clicks-list_card :
    (s : Panel) (policies : List Policy) (routes : List RoutePolicy)
    → clicks (list_card s policies routes)
      ≡ clicks_each (row_clicks s) (filtered_routes routes s.query)
unfolding list_card buttons
clicks-list_card s policies routes =
    clicks-listed (table_row s policies) (row_clicks s) (filtered_routes routes s.query) _
      (clicks-table_row s policies) (clicks-noted (empty_note s routes) _)

-- On the page of the route policies the button for an example and the button that attaches a policy
-- come first, then two buttons for each route policy that the search finds, in the order of the list
-- and for no other, which act on that very route policy, and at last the one that leads to the
-- documentation.
pub clicks-routes_page :
    (d : NewRoute) (s : Panel) (policies : List Policy) (routes : List RoutePolicy)
    → clicks (routes_page d s policies routes)
      ≡ fill fill_example ∷ submit ∷ clicks_each (row_clicks s) (filtered_routes routes s.query)
        ++ docs ∷ []
unfolding routes_page create_card help_panel page_hero buttons
clicks-routes_page d s policies routes =
    ap (λ more. fill fill_example ∷ submit ∷ more)
      (map-append (λ (b : Button Act). b.on_click) (buttons_of (list_card s policies routes)) _
        ∙ ap (λ more. more ++ docs ∷ []) (clicks-list_card s policies routes))
