-- ===== src/Pages/Dashboard/Deletes.antt =====
-- From a button to a call that deletes.
use rate_x_rate_limiter_web.Base.{
  ◌≡◌, refl, Bool, true, false, List, [], ◌∷◌, arith, Result, ok, err,
}
use rate_x_rate_limiter_web.App.Handlers.{Event, World, dispatch, run_confirmed}
use rate_x_rate_limiter_web.App.Loop.Confirmed.{destructive, destructive-append}
use rate_x_rate_limiter_web.Panels.Keys.{Browser, handle_copy, notices, copy_text}
use rate_x_rate_limiter_web.Panels.Policies as PolicyPanel
use rate_x_rate_limiter_web.Panels.Routes as RoutePanel
use rate_x_rate_limiter_web.Pages.Dashboard.{
  Click, event, on_policies, on_routes, on_keys, on_playground, copies, Locals, handed,
}
use rate_x_rate_limiter_web.Pages.Policies as OnPolicies
use rate_x_rate_limiter_web.Pages.Routes as OnRoutes
use rate_x_rate_limiter_web.Pages.Keys as OnKeys
use rate_x_rate_limiter_web.Pages.Playground as OnPlayground

abbrev dispatched : World → List Event → World
dispatched w [] = w
dispatched w (e ∷ events) = dispatched (dispatch w e) events

-- The dashboard after a click or a change on the screen.
abbrev pub clicked : Browser → Locals → World → Click → World
clicked b l w c = dispatched w (handed b l w.state c)

-- Only the button of the dialog consents.
abbrev accepts : Event → Bool
accepts run_confirmed = true
accepts e = false

abbrev pub consents : Click → Bool
consents (event e) = accepts e
consents c = false

dispatch-destructive :
    (w : World) (e : Event)
    → accepts e ≡ false
    → destructive (dispatch w e).pending ≡ destructive w.pending
unfolding dispatch
dispatch-destructive w e h = grind (arith, destructive-append)

copied-destructive :
    (w : World) (r : Result Bool)
    → destructive (dispatched w (notices r)).pending ≡ destructive w.pending
unfolding dispatch
copied-destructive w (ok copied) = refl
copied-destructive w (err e) = refl

on_policies-destructive :
    (b : Browser) (l : Locals) (w : World) (a : OnPolicies.Act)
    → destructive (clicked b l w (on_policies a)).pending ≡ destructive w.pending
unfolding handed
on_policies-destructive b l w (OnPolicies.fill f) = dispatch-destructive w _ refl
on_policies-destructive b l w OnPolicies.submit = dispatch-destructive w _ refl
on_policies-destructive b l w (OnPolicies.remove p) = dispatch-destructive w _ refl
on_policies-destructive b l w (OnPolicies.work (PolicyPanel.search q)) = refl
on_policies-destructive b l w (OnPolicies.work (PolicyPanel.start_edit p)) = refl
on_policies-destructive b l w (OnPolicies.work (PolicyPanel.edit e)) = refl
on_policies-destructive b l w (OnPolicies.work PolicyPanel.cancel_edit) = refl
on_policies-destructive b l w (OnPolicies.work PolicyPanel.saved) = refl
on_policies-destructive b l w (OnPolicies.work (PolicyPanel.save_edit id)) =
    dispatch-destructive w _ refl

on_routes-destructive :
    (b : Browser) (l : Locals) (w : World) (a : OnRoutes.Act)
    → destructive (clicked b l w (on_routes a)).pending ≡ destructive w.pending
unfolding handed
on_routes-destructive b l w (OnRoutes.fill f) = dispatch-destructive w _ refl
on_routes-destructive b l w OnRoutes.submit = dispatch-destructive w _ refl
on_routes-destructive b l w (OnRoutes.remove r) = dispatch-destructive w _ refl
on_routes-destructive b l w OnRoutes.docs = dispatch-destructive w _ refl
on_routes-destructive b l w (OnRoutes.work (RoutePanel.search q)) = refl
on_routes-destructive b l w (OnRoutes.work (RoutePanel.start_edit r)) = refl
on_routes-destructive b l w (OnRoutes.work (RoutePanel.edit e)) = refl
on_routes-destructive b l w (OnRoutes.work RoutePanel.cancel_edit) = refl
on_routes-destructive b l w (OnRoutes.work RoutePanel.saved) = refl
on_routes-destructive b l w (OnRoutes.work (RoutePanel.save_edit id)) =
    dispatch-destructive w _ refl

on_keys-destructive :
    (b : Browser) (l : Locals) (w : World) (a : OnKeys.Act)
    → destructive (clicked b l w (on_keys a)).pending ≡ destructive w.pending
unfolding handed handle_copy
on_keys-destructive b l w (OnKeys.copy value) = copied-destructive w (copy_text b value)
on_keys-destructive b l w (OnKeys.fill f) = dispatch-destructive w _ refl
on_keys-destructive b l w OnKeys.submit = dispatch-destructive w _ refl
on_keys-destructive b l w (OnKeys.revoke id) = dispatch-destructive w _ refl
on_keys-destructive b l w OnKeys.docs = dispatch-destructive w _ refl

on_playground-destructive :
    (b : Browser) (l : Locals) (w : World) (a : OnPlayground.Act)
    → destructive (clicked b l w (on_playground a)).pending ≡ destructive w.pending
unfolding handed
on_playground-destructive b l w OnPlayground.send = dispatch-destructive w _ refl
on_playground-destructive b l w (OnPlayground.choose_method m) = refl
on_playground-destructive b l w (OnPlayground.type_url url) = refl
on_playground-destructive b l w (OnPlayground.choose_tab tab) = refl
on_playground-destructive b l w (OnPlayground.try_it m url) = refl
on_playground-destructive b l w OnPlayground.copy = refl

-- Whatever the user clicks or changes on the screen, other than the button of the dialog that
-- consents, no call that deletes or revokes is made.
pub clicked-destructive :
    (b : Browser) (l : Locals) (w : World) (c : Click)
    → consents c ≡ false
    → destructive (clicked b l w c).pending ≡ destructive w.pending
unfolding handed
clicked-destructive b l w (event e) h = dispatch-destructive w e h
clicked-destructive b l w (on_policies a) h = on_policies-destructive b l w a
clicked-destructive b l w (on_routes a) h = on_routes-destructive b l w a
clicked-destructive b l w (on_keys a) h = on_keys-destructive b l w a
clicked-destructive b l w (on_playground a) h = on_playground-destructive b l w a
clicked-destructive b l w (copies value) h = refl
