-- ===== src/Panels/Keys/Copying.antt =====
-- When the user is told that a key was copied.
use rate_x_rate_limiter_web.Base.{◌≡◌, ◌↔◌, String, false, none, [], ◌∷◌, ok, is_err, arith}
use rate_x_rate_limiter_web.App.Handlers.{notify}
use rate_x_rate_limiter_web.Panels.Keys.{Browser, copy_text, handle_copy}

-- The user is told "Copied to clipboard" exactly when copying does not throw, whether or not
-- anything was copied.
pub handle_copy-notifies_iff :
    (b : Browser) (value : String)
    → (handle_copy b value ≡ notify "Copied to clipboard" ∷ [])
      ↔ (is_err (copy_text b value) ≡ false)
unfolding handle_copy
handle_copy-notifies_iff b value = ground arith

-- In a browser without the clipboard, where the fallback fails, nothing is copied and the user is
-- told that it was.
pub handle_copy-fallback_fails :
    (b : Browser) (value : String)
    → b.write_text ≡ none
    → b.exec_copy value ≡ false
    → (copy_text b value ≡ ok false) × (handle_copy b value ≡ notify "Copied to clipboard" ∷ [])
unfolding handle_copy copy_text
handle_copy-fallback_fails b value h k = ground arith
