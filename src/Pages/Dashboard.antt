-- ===== src/Pages/Dashboard.antt =====
-- What frontend/src/App.jsx renders: the frame, the notice, the page that is chosen, and the dialog of
-- frontend/src/components/ConfirmDialog.jsx; and what a click or a change on a page hands to `App`.
-- The state of a panel is that of the page as it is mounted.
pub mod Deletes
use rate_x_rate_limiter_web.Base.{ℕ, ◌≡◌, refl, String, Option, none, some, List, [], ◌∷◌, ◌++◌}
use rate_x_rate_limiter_web.Api.{Json}
use rate_x_rate_limiter_web.Model.{Policy, ApiKey, RoutePolicy}
use rate_x_rate_limiter_web.Api.Calls.{Call, delete_policy, revoke_key, delete_route_policy}
use rate_x_rate_limiter_web.App.{
  State, Confirm, Page, overview, keys, policies, routes, analytics, playground, docs, closure_of,
}
use rate_x_rate_limiter_web.App.Handlers.{
  Event, World, navigate, edit_policy, edit_key, edit_route, create_policy, create_key,
  create_route, update_policy, update_route, ask_revoke, ask_delete_policy, ask_delete_route,
  cancel_confirm, run_confirmed, send, dispatch, confirmed, calling,
}
use rate_x_rate_limiter_web.Panels.Keys.{Browser, handle_copy}
use rate_x_rate_limiter_web.Panels.Keys as KeyPanel
use rate_x_rate_limiter_web.Panels.Policies as PolicyPanel
use rate_x_rate_limiter_web.Panels.Routes as RoutePanel
use rate_x_rate_limiter_web.Panels.Tester.{Tester}
use rate_x_rate_limiter_web.Panels.Shell.{Dialog, dialog}
use rate_x_rate_limiter_web.Pages.View.{
  View, Views, words, part, button, input, select, end, ◌&◌, says,
}
use rate_x_rate_limiter_web.Pages.Frame.{sidebar}
use rate_x_rate_limiter_web.Pages.Bar.{topbar, notice}
use rate_x_rate_limiter_web.Pages.Home.{overview_page, analytics_page}
use rate_x_rate_limiter_web.Pages.Docs.{docs_page}
use rate_x_rate_limiter_web.Pages.Playground.{playground_page}
use rate_x_rate_limiter_web.Pages.Policies.{policies_page}
use rate_x_rate_limiter_web.Pages.Routes.{routes_page}
use rate_x_rate_limiter_web.Pages.Keys.{keys_page}
use rate_x_rate_limiter_web.Pages.Policies as OnPolicies
use rate_x_rate_limiter_web.Pages.Routes as OnRoutes
use rate_x_rate_limiter_web.Pages.Keys as OnKeys
use rate_x_rate_limiter_web.Pages.Playground as OnPlayground

-- What the user does, by the component that handles it first; a text of the documentation is copied.
pub data Click : Type 0 where
  event : Event → Click
  on_policies : OnPolicies.Act → Click
  on_routes : OnRoutes.Act → Click
  on_keys : OnKeys.Act → Click
  on_playground : OnPlayground.Act → Click
  copies : String → Click

-- The same elements, with other names for what is done.
unfoldable mutual
  pub lift : {A B : Type 0} → (A → B) → View A → View B
  lift f (words t) = words t
  lift f (part tag name inner) = part tag name (lifts f inner)
  lift f (button name a inner) = button name (f a) (lifts f inner)
  lift f (input value change) = input value (λ v. f (change v))
  lift f (select value options change) = select value options (λ v. f (change v))

  pub lifts : {A B : Type 0} → (A → B) → Views A → Views B
  lifts f end = end
  lifts f (v & vs) = lift f v & lifts f vs

-- `ConfirmDialog`
abbrev confirm_dialog : Option Dialog → Views Event
confirm_dialog none = end
confirm_dialog (some d) =
    part "div" "modal-backdrop" (
      part "section" "confirm-dialog" (
        button "dialog-close" d.on_cancel end
        & says "h2" d.title
        & says "p" d.message
        & part "div" "dialog-actions" (
            button "secondary-action compact-action" d.on_cancel (words "Cancel" & end)
            & button "danger-action compact-action" d.on_accept (words d.accept & end)
            & end)
        & end)
      & end)
    & end

pub record Locals : Type 0 where
  pub policy_panel : PolicyPanel.Panel
  pub route_panel : RoutePanel.Panel
  pub tester : Tester

abbrev beside : {A : Type 0} → Views A → Views A → Views A
beside end ws = ws
beside (v & vs) ws = v & beside vs ws

-- `of_text`, `locale`, `format`, `to_number` and `stringify` are the conversions of JavaScript that the
-- pages use.
module _ (of_text : String → String) (locale : ℕ → String) (format : String → String)
    (to_number : String → ℕ) (stringify : Json → String) where
  unfoldable pub page : Locals → State → Page → View Click
  page l s overview =
      lift event (overview_page of_text locale s.stats s.events s.top_routes s.active_range)
  page l s keys = lift on_keys (keys_page format s.new_key s.policies s.created_key s.keys)
  page l s policies =
      lift on_policies (policies_page to_number s.new_policy l.policy_panel s.policies)
  page l s routes =
      lift on_routes (routes_page s.new_route l.route_panel s.policies s.route_policies)
  page l s analytics =
      lift event (analytics_page of_text locale s.stats s.events s.top_routes s.active_range)
  page l s playground = lift on_playground (playground_page stringify l.tester s.test_result)
  page l s docs = lift copies docs_page

  unfoldable pub screen : Locals → State → View Click
  screen l s = part "main" "shell" (
      lift (λ p. event (navigate p)) (sidebar s.current_page)
      & part "section" "workspace" (
          lift event (topbar s.current_page)
          & beside (lifts event (notice s.message))
              (page l s s.current_page & lifts event (confirm_dialog (dialog s.confirm))))
      & end)

-- The events of `App` that a click or a change leads to, in the order of the source. What a panel keeps
-- for itself leads to none.
unfoldable pub handed : Browser → Locals → State → Click → List Event
handed b l s (event e) = e ∷ []
handed b l s (on_policies (OnPolicies.fill f)) =
    edit_policy (PolicyPanel.edit_form s.new_policy f) ∷ []
handed b l s (on_policies OnPolicies.submit) = create_policy ∷ []
handed b l s (on_policies (OnPolicies.work (PolicyPanel.save_edit id))) =
    update_policy id l.policy_panel.draft ∷ []
handed b l s (on_policies (OnPolicies.work a)) = []
handed b l s (on_policies (OnPolicies.remove p)) = ask_delete_policy p ∷ []
handed b l s (on_routes (OnRoutes.fill f)) =
    edit_route (RoutePanel.edit_form s.policies s.new_route f) ∷ []
handed b l s (on_routes OnRoutes.submit) = create_route ∷ []
handed b l s (on_routes (OnRoutes.work (RoutePanel.save_edit id))) =
    update_route id l.route_panel.draft ∷ []
handed b l s (on_routes (OnRoutes.work a)) = []
handed b l s (on_routes (OnRoutes.remove r)) = ask_delete_route r ∷ []
handed b l s (on_routes OnRoutes.docs) = navigate docs ∷ []
handed b l s (on_keys (OnKeys.fill f)) = edit_key (KeyPanel.edit_form s.new_key f) ∷ []
handed b l s (on_keys OnKeys.submit) = create_key ∷ []
handed b l s (on_keys (OnKeys.copy value)) = handle_copy b value
handed b l s (on_keys (OnKeys.revoke id)) = ask_revoke id ∷ []
handed b l s (on_keys OnKeys.docs) = navigate docs ∷ []
handed b l s (on_playground OnPlayground.send) = send l.tester.method l.tester.url ∷ []
handed b l s (on_playground a) = []
handed b l s (copies value) = []
