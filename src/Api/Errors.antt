-- ===== src/Api/Errors.antt =====
-- What `request` does with an answer: when it throws, and which text the error carries.
use rate_x_rate_limiter_web.Base.{
  ◌≡◌, ◌≢◌, ◌↔◌, ◌⊎◌, String, Bool, true, false, Option, none, some, Result, ok, err, is_err, arith,
}
use rate_x_rate_limiter_web.Text.{is_empty}
use rate_x_rate_limiter_web.Api.{
  Json, str, obj, end, field, Response, is_ok, settle, read_error, get, display,
}

-- The bodies that the server's handlers send with an error: a code, or a code with a message.
abbrev pub error_body : String → Option String → Json
error_body e none = obj (field "error" (str e) end)
error_body e (some m) = obj (field "error" (str e) (field "message" (str m) end))

abbrev pub text_of : String → Option String → String
text_of e none = e
text_of e (some m) = m

module _ (parse : String → Result Json) where
  -- `request` throws exactly when the status is not a success, or when a body is wanted (the call
  -- is not marked empty and the status is not 204) and it is no JSON.
  pub settle-throws_iff :
      (empty : Bool) (r : Response)
      → (is_err (settle parse empty r) ≡ true) ↔ (
          (is_ok r ≡ false) ⊎ ((empty ≡ false) × (r.status ≢ 204) × (is_err (parse r.text) ≡ true)))
  unfolding settle
  settle-throws_iff empty r = ground arith

  -- For an answer that is no success and whose body is one of the server's error bodies, the error
  -- thrown carries the message if there is one, and the code if there is none.
  pub settle-error_body :
      (empty : Bool) (r : Response) (e : String) (m : Option String)
      → is_ok r ≡ false
      → is_empty r.text ≡ false
      → parse r.text ≡ ok (error_body e m)
      → is_empty (text_of e m) ≡ false
      → settle parse empty r ≡ err (text_of e m)
  unfolding settle read_error get display
  settle-error_body empty r e none bad full p h = rw (bad, full, p, h)
  settle-error_body empty r e (some m) bad full p h = rw (bad, full, p) (ground arith)
