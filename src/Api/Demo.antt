-- ===== src/Api/Demo.antt =====
-- `sendDemoRequest` of frontend/src/api.js. The time that the request took, the length of
-- `JSON.stringify(body)` and `JSON.parse` are arguments.
use Prim.Native.String.{[], ◌∷◌}
use rate_x_rate_limiter_web.Base.{
  ℕ, String, ◌≡◌, refl, true, false, Option, List, Result, ok, err, if◌then◌else◌, arith,
}
use rate_x_rate_limiter_web.Text.{append, starts_with, is_empty, begins}
use rate_x_rate_limiter_web.Api.{Json, obj, end, Response}

pub record DemoResult : Type 0 where
  pub status : ℕ
  pub status_text : String
  pub limit : Option String
  pub remaining : Option String
  pub retry_after : Option String
  pub duration_ms : ℕ
  pub size_bytes : ℕ
  pub body : Json

abbrev pub demo_headers : String → List (String × String)
demo_headers api_key = if is_empty api_key then List.[] else List.◌∷◌ ("X-API-Key", api_key) List.[]

-- The address that is fetched.
unfoldable pub target : String → String → String
target base url =
    if starts_with url "http"
    then url
    else append base (if starts_with url "/" then url else append "/" url)

-- A body that is no JSON reads as `{}`.
abbrev or_object : Result Json → Json
or_object (ok v) = v
or_object (err _) = obj end

unfoldable pub demo_result : (String → Result Json) → (Json → ℕ) → ℕ → Response → DemoResult
demo_result parse size duration r =
    let body = or_object (parse r.text) in
    record {
      status = r.status;
      status_text = r.status_text;
      limit = r.header "X-RateLimit-Limit";
      remaining = r.header "X-RateLimit-Remaining";
      retry_after = r.header "Retry-After";
      duration_ms = duration;
      size_bytes = size body;
      body = body;
    }

starts_with-append : (s t p : String) → starts_with s p ≡ true → starts_with (append s t) p ≡ true
unfolding begins
starts_with-append s t [] h = refl
starts_with-append (c ∷ s) t (d ∷ p) h = ground (arith, starts_with-append s t p)
starts_with-append [] t (d ∷ p) h = absurd (unfold begins in ground arith)

-- With a base that is an `http` address, whatever the user types, the address fetched is one too.
pub target-starts_with :
    (base url : String)
    → starts_with base "http" ≡ true
    → starts_with (target base url) "http" ≡ true
unfolding target
target-starts_with base url h =
    ground (
      arith,
      starts_with-append base url "http" h,
      starts_with-append base (append "/" url) "http" h,
    )

-- A relative path reaches the same address with and without its leading slash.
pub target-slash :
    (base path : String)
    → starts_with path "http" ≡ false
    → starts_with path "/" ≡ false
    → target base (append "/" path) ≡ target base path
unfolding target begins
target-slash base path h k = rw (h, k)
