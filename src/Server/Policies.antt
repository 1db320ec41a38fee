-- ===== src/Server/Policies.antt =====
-- internal/service/policy_service.go and internal/service/route_policy_service.go: what is checked
-- before a policy or a route policy is stored, and `FromPolicy` of internal/middleware/rate_limit.go,
-- which makes a limiter of a policy. A number that is not positive is 0 here. Case is changed for
-- the ASCII letters.
pub mod Valid
use Prim.Native.String.{[], ◌∷◌}
use rate_x_rate_limiter_web.Base.{
  ℕ, String, Bool, true, ◌||◌, not, Result, ok, err, str_eq, ◌==◌, if◌then◌else◌, code, Char,
}
use rate_x_rate_limiter_web.Text.{is_empty}
use rate_x_rate_limiter_web.Model.{PolicyDraft, RouteDraft}
use rate_x_rate_limiter_web.Server.Auth.{trim_space}

-- The character at the place in the second text where it stands in the first.
unfoldable pub translate : String → String → Char → Char
translate [] bs c = c
translate (a ∷ as') [] c = c
translate (a ∷ as') (b ∷ bs) c = if code a == code c then b else translate as' bs c

unfoldable pub map_text : (Char → Char) → String → String
map_text f [] = []
map_text f (c ∷ s) = f c ∷ map_text f s

-- `strings.ToLower`, `strings.ToUpper`
unfoldable pub to_lower : String → String
unfolding translate map_text
to_lower = map_text (translate "ABCDEFGHIJKLMNOPQRSTUVWXYZ" "abcdefghijklmnopqrstuvwxyz")

unfoldable pub to_upper : String → String
unfolding translate map_text
to_upper = map_text (translate "abcdefghijklmnopqrstuvwxyz" "ABCDEFGHIJKLMNOPQRSTUVWXYZ")

-- The algorithm that a policy names, with the default for none.
unfoldable pub algorithm_of : String → String
algorithm_of name =
    let text = to_lower (trim_space name) in if is_empty text then "token_bucket" else text

abbrev pub is_supported : String → Bool
is_supported a = str_eq a "token_bucket" || str_eq a "fixed_window" || str_eq a "sliding_window"

unfoldable pub validate_policy : PolicyDraft → Result PolicyDraft
validate_policy d =
    if not (is_supported (algorithm_of d.algorithm))
    then err "unsupported algorithm"
    else if d.request_limit == 0 || d.window_seconds == 0
    then err "request_limit and window_seconds must be positive"
    else ok (record d {
      algorithm = algorithm_of d.algorithm;
      burst_capacity = if d.burst_capacity == 0 then d.request_limit else d.burst_capacity;
    })

unfoldable pub validate_route : RouteDraft → Result RouteDraft
validate_route d =
    if is_empty (to_upper (trim_space d.method))
      || is_empty (trim_space d.route_pattern)
      || is_empty d.policy_id
    then err "method, route_pattern, and policy_id are required"
    else ok (record d {
      method = to_upper (trim_space d.method);
      route_pattern = trim_space d.route_pattern;
      enabled = if not d.enabled then true else d.enabled;
    })

-- The limiters, with their limit and the seconds of their window.
pub data Limiter : Type 0 where
  memory : ℕ → ℕ → Limiter
  fixed : ℕ → ℕ → Limiter
  sliding : ℕ → ℕ → Limiter
  token : ℕ → ℕ → Limiter

abbrev capacity_of : PolicyDraft → ℕ
capacity_of d = if d.burst_capacity == 0 then d.request_limit else d.burst_capacity

-- `FromPolicy` for a policy that it has no limiter of yet; `in_memory` is that the backend is
-- "memory" or that there is no Redis.
unfoldable pub new_limiter : Bool → PolicyDraft → Limiter
new_limiter in_memory d =
    if in_memory
    then memory (capacity_of d) d.window_seconds
    else if str_eq d.algorithm "fixed_window"
    then fixed d.request_limit d.window_seconds
    else if str_eq d.algorithm "sliding_window"
    then sliding d.request_limit d.window_seconds
    else token (capacity_of d) d.window_seconds
