-- ===== src/App/Handlers.antt =====
-- The handlers of frontend/src/App.jsx: what the user's events do at once, and the call that each
-- of them waits for. A handler runs with the closure of the last render.
use rate_x_rate_limiter_web.Base.{◌+◌, String, Option, none, some, List, [], ◌∷◌, ◌++◌}
use rate_x_rate_limiter_web.Text.{join}
use rate_x_rate_limiter_web.Model.{Policy, PolicyDraft, KeyDraft, RoutePolicy, NewRoute, RouteDraft}
use rate_x_rate_limiter_web.Api.Calls.{Call}
use rate_x_rate_limiter_web.App.{State, Closure, Confirm, Page, Range, closure_of}

-- What a promise that has not settled is waited for with: `load`, a handler or an `action` around
-- one call, or the demo request with its API key, method and address.
pub data Task : Type 0 where
  loading : Closure → Task
  calling : Call → Closure → Task
  sending : String → String → String → Closure → Task

-- `effect` is the closure of the render in which the effect last ran: that of its timer.
pub record World : Type 0 where
  pub state : State
  pub effect : Closure
  pub pending : List Task

pub data Event : Type 0 where
  navigate : Page → Event
  notify : String → Event
  close_notice refresh load_more : Event
  set_range : Range → Event
  edit_policy : PolicyDraft → Event
  edit_key : KeyDraft → Event
  edit_route : NewRoute → Event
  create_policy create_key create_route : Event
  update_policy : String → PolicyDraft → Event
  update_route : String → RouteDraft → Event
  ask_revoke : String → Event
  ask_delete_policy : Policy → Event
  ask_delete_route : RoutePolicy → Event
  cancel_confirm run_confirmed : Event
  send : String → String → Event

abbrev pub with_state : World → State → World
with_state w s = record w { state = s }

abbrev pub start : World → Task → World
start w t = record w { pending = w.pending ++ t ∷ [] }

-- The call of a handler, waited for with the closure of the render.
abbrev call : World → Call → World
call w c = start w (calling c (closure_of w.state))

abbrev ask : World → String → String → Option String → Call → World
ask w title message confirm_text c = with_state w (record (w.state) {
  confirm = some (record {
    title = title;
    message = message;
    confirm_text = confirm_text;
    call = c;
    closure = closure_of w.state;
  });
})

-- `runConfirmedAction`: the dialog is closed before the work starts.
unfoldable pub confirmed : World → Option Confirm → World
confirmed w none = w
confirmed w (some c) =
    start (with_state w (record (w.state) { confirm = none })) (calling c.call c.closure)

-- The effect of `[eventLimit]` runs again: its timer has the new render's closure, and it loads.
abbrev run_effect : World → World
run_effect w = start (record w { effect = closure_of w.state }) (loading (closure_of w.state))

unfoldable pub dispatch : World → Event → World
unfolding confirmed
dispatch w (navigate page) = with_state w (record (w.state) { current_page = page })
dispatch w (notify text) = with_state w (record (w.state) { message = text })
dispatch w close_notice = with_state w (record (w.state) { message = "" })
dispatch w refresh = start w (loading (closure_of w.state))
dispatch w load_more =
    run_effect (with_state w (record (w.state) { event_limit = w.state.event_limit + 30 }))
dispatch w (set_range r) = with_state w (record (w.state) { active_range = r })
dispatch w (edit_policy d) = with_state w (record (w.state) { new_policy = d })
dispatch w (edit_key d) = with_state w (record (w.state) { new_key = d })
dispatch w (edit_route d) = with_state w (record (w.state) { new_route = d })
dispatch w create_policy = call w (Call.create_policy w.state.new_policy)
dispatch w create_key = call w (Call.create_key w.state.new_key)
dispatch w create_route = call w (Call.create_route_policy w.state.new_route)
dispatch w (update_policy id d) = call w (Call.update_policy id d)
dispatch w (update_route id d) = call w (Call.update_route_policy id d)
dispatch w (ask_revoke id) =
    ask w "Revoke API key?" "This key will stop authenticating requests immediately."
      (some "Revoke key") (Call.revoke_key id)
dispatch w (ask_delete_policy p) =
    ask w "Delete policy?"
      (join (
        "Delete \"" ∷ p.name
        ∷ "\"? Policies used by keys or routes cannot be removed until reassigned." ∷ []))
      none (Call.delete_policy p.id)
dispatch w (ask_delete_route r) =
    ask w "Delete route policy?"
      (join ("Remove " ∷ r.method ∷ " " ∷ r.route_pattern ∷ " from rate limiting rules?" ∷ [])) none
      (Call.delete_route_policy r.id)
dispatch w cancel_confirm = with_state w (record (w.state) { confirm = none })
dispatch w run_confirmed = confirmed w w.state.confirm
dispatch w (send method url) = start w (sending w.state.created_key method url (closure_of w.state))
