-- ===== src/Panels/Shell/Laws.antt =====
-- The dialog, from the question to the call.
use rate_x_rate_limiter_web.Base.{◌≡◌, refl, some, none}
use rate_x_rate_limiter_web.Model.{Policy}
use rate_x_rate_limiter_web.Api.Calls.{Call}
use rate_x_rate_limiter_web.App.{closure_of}
use rate_x_rate_limiter_web.App.Handlers.{
  World, dispatch, calling, ask_delete_policy, with_state, start,
}
use rate_x_rate_limiter_web.Panels.Shell.{Dialog, dialog}

-- The user asks for the deletion of a policy: a dialog with a button "Delete" is shown; its cancel
-- button closes it and starts nothing; its other button closes it and starts the deletion of this
-- policy, and nothing else.
pub dialog-delete_policy :
    (w : World) (p : Policy)
    → (d : Dialog) × (d.accept ≡ "Delete")
      × (dialog (dispatch w (ask_delete_policy p)).state.confirm ≡ some d)
      × (dispatch (dispatch w (ask_delete_policy p)) d.on_cancel
          ≡ with_state w (record (w.state) { confirm = none }))
      × (dispatch (dispatch w (ask_delete_policy p)) d.on_accept
          ≡ start
              (with_state w (record (w.state) { confirm = none }))
              (calling (Call.delete_policy p.id) (closure_of w.state)))
unfolding dispatch dialog
dialog-delete_policy w p = (_, refl, refl, refl, refl)
