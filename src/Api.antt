-- ===== src/Api.antt =====
-- frontend/src/api.js: the calls of the HTTP API, the common `request`, the text of an error and
-- the demo request. What `fetch` and `JSON.parse` do comes from outside: they are arguments.
pub mod Calls
pub mod Demo
pub mod Errors
use rate_x_rate_limiter_web.Base.{
  ℕ, String, Bool, true, false, not, ◌||◌, ◌&&◌, Option, none, some, List, [], ◌∷◌, Result, ok, err,
  ◌>>=◌, leb, ltb, ◌==◌, if◌then◌else◌, str_eq,
}
use rate_x_rate_limiter_web.Text.{is_empty, join, trim, show}

-- A value that `JSON.parse` returns. A number carries the text that a template prints for it.
mutual
  pub data Json : Type 0 where
    null : Json
    bool : Bool → Json
    num : String → Json
    str : String → Json
    arr : Items → Json
    obj : Fields → Json

  pub data Items : Type 0 where
    nil : Items
    cons : Json → Items → Items

  pub data Fields : Type 0 where
    end : Fields
    field : String → Json → Fields → Fields

-- `fetch` settles with a response, or throws.
pub record Response : Type 0 where
  pub status : ℕ
  pub status_text : String
  pub header : String → Option String
  pub text : String

abbrev pub is_ok : Response → Bool
is_ok r = leb 200 r.status && ltb r.status 300

abbrev status_line : Response → String
status_line r = join (show r.status ∷ " " ∷ r.status_text ∷ [])

abbrev pub is_null : Json → Bool
is_null null = true
is_null _ = false

-- `undefined` is `none`.
abbrev pub truthy : Option Json → Bool
truthy none = false
truthy (some null) = false
truthy (some (bool b)) = b
truthy (some (num t)) = not (str_eq t "0")
truthy (some (str s)) = not (is_empty s)
truthy (some (arr xs)) = true
truthy (some (obj fs)) = true

lookup : String → Fields → Option Json
lookup k end = none
lookup k (field j v fs) = if str_eq j k then some v else lookup k fs

-- `value.key`, which throws at `null` alone; no other value but an object has the two fields read.
unfoldable pub get : String → Json → Option Json
unfolding lookup
get k (obj fs) = lookup k fs
get k _ = none

-- `data.message || data.error`
abbrev pub message_of : Json → Option Json
message_of data' = let m = get "message" data' in if truthy m then m else get "error" data'

-- The text that `new Error(value)` carries.
mutual
  pub display : Json → String
  display null = "null"
  display (bool true) = "true"
  display (bool false) = "false"
  display (num t) = t
  display (str s) = s
  display (arr xs) = display_items xs
  display (obj fs) = "[object Object]"

  pub display_items : Items → String
  display_items nil = ""
  display_items (cons x nil) = if is_null x then "" else display x
  display_items (cons x (cons y xs)) =
      join ((if is_null x then "" else display x) ∷ "," ∷ display_items (cons y xs) ∷ [])

-- `message` if there is one, or else the whole response on a line.
abbrev choose : Option Json → String → String
choose none line = line
choose (some m) line = if truthy (some m) then display m else line

module _ (parse : String → Result Json) where
  -- `readError`. A text that is no JSON, and a `null`, fall through to the last line.
  unfoldable pub read_error : Response → String
  read_error r = if is_empty r.text then status_line r else elim (parse r.text) [
    | ok data' ↦ choose (message_of data') (join (status_line r ∷ ": " ∷ trim r.text ∷ []))
    | err _ ↦ join (status_line r ∷ ": " ∷ trim r.text ∷ [])
  ]

  -- The rest of `request` once `fetch` has settled; `none` is the `null` of an empty answer.
  unfoldable pub settle : Bool → Response → Result (Option Json)
  settle empty r =
      if not (is_ok r)
      then err (read_error r)
      else if empty || r.status == 204
      then ok none
      else (parse r.text >>= λ v. ok (some v))
