-- ===== src/Server/Auth.antt =====
-- internal/middleware/auth.go: the administration token, the bearer token and the API key of a
-- request. A header that a request lacks reads "".
use Prim.Native.String.{[], ◌∷◌}
use rate_x_rate_limiter_web.Base.{
  ℕ, String, Bool, code, List, ◌&&◌, ◌||◌, leb, ◌==◌, if◌then◌else◌, str_eq,
}
use rate_x_rate_limiter_web.Text.{trim_start, trim_end, or_text, same}

-- White space for Go's `unicode.IsSpace`.
unfoldable pub is_go_space : ℕ → Bool
is_go_space c =
    (leb 9 c && leb c 13)
    || c == 32
    || c == 0x85
    || c == 0xa0
    || c == 0x1680
    || (leb 0x2000 c && leb c 0x200a)
    || c == 0x2028
    || c == 0x2029
    || c == 0x202f
    || c == 0x205f
    || c == 0x3000

-- `strings.TrimSpace`
unfoldable pub trim_space : String → String
unfolding trim_start trim_end is_go_space
trim_space s = trim_end is_go_space (trim_start is_go_space s)

-- What is left of a header that begins with the prefix, trimmed; "" for any other.
unfoldable pub after_prefix : String → String → String
unfolding trim_space
after_prefix [] header = trim_space header
after_prefix (c ∷ p) [] = ""
after_prefix (c ∷ p) (d ∷ header) = if code c == code d then after_prefix p header else ""

unfoldable pub bearer_token : String → String
unfolding after_prefix
bearer_token header = after_prefix "Bearer " header

-- `c.GetHeader(name)` over the headers that the client set. Names are compared as they are
-- spelled, as the dashboard and the server spell them alike.
unfoldable pub header : String → List (String × String) → String
unfolding same
header name List.[] = ""
header name (List.◌∷◌ (k, v) hs) = if same k name then v else header name hs

-- The test of `AdminAuth`: whether the request is let through.
unfoldable pub admin_auth : String → List (String × String) → Bool
unfolding header trim_space bearer_token
admin_auth admin_token hs =
    str_eq
      (or_text (trim_space (header "X-Admin-Token" hs)) (bearer_token (header "Authorization" hs)))
      admin_token

unfoldable pub extract_api_key : List (String × String) → String
unfolding header trim_space bearer_token
extract_api_key hs =
    or_text (trim_space (header "X-API-Key" hs)) (bearer_token (header "Authorization" hs))
