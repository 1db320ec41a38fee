-- ===== src/Panels/Tester.antt =====
-- frontend/src/components/RequestTester.jsx: the request that is typed, the four tabs of the
-- result, and the samples. `JSON.stringify(value, null, 2)` is an argument.
pub mod Laws
use rate_x_rate_limiter_web.Base.{
  ℕ, String, Bool, ◌&&◌, Option, none, some, List, [], ◌∷◌, leb, ltb, if◌then◌else◌,
}
use rate_x_rate_limiter_web.Text.{join, append, show}
use rate_x_rate_limiter_web.Api.{
  Json, null, num, str, arr, obj, Items, nil, cons, Fields, end, field, truthy, is_null,
}
use rate_x_rate_limiter_web.Api.Demo.{DemoResult}

pub data Tab : Type 0 where
  response headers rate curl : Tab

pub record Tester : Type 0 where
  pub method : String
  pub url : String
  pub active_tab : Tab

abbrev pub initial : Tester
initial = record {
  method = "GET";
  url = "http://localhost:8081/v1/products";
  active_tab = response;
}

-- What the panel shows: a result, or the example before the first request.
pub record Display : Type 0 where
  pub status : ℕ
  pub status_text : String
  pub limit : Json
  pub remaining : Json
  pub retry_after : Json
  pub duration_ms : ℕ
  pub size_bytes : ℕ
  pub body : Json

-- A header that the response lacks is `null`.
abbrev pub header_value : Option String → Json
header_value none = null
header_value (some v) = str v

abbrev product : String → String → String → Json
product id name price =
    obj (field "id" (str id) (field "name" (str name) (field "price" (num price) end)))

abbrev example_body : Json
example_body = obj (
    field "data"
      (obj (
        field "products"
          (arr (
            cons (product "prod_001" "Wireless API" "19")
              (cons (product "prod_002" "RateX Pro" "29") nil)))
          end))
      end)

unfoldable pub display_of : Option DemoResult → Display
display_of none = record {
  status = 200;
  status_text = "OK";
  limit = num "100";
  remaining = num "90";
  retry_after = null;
  duration_ms = 324;
  size_bytes = 512;
  body = example_body;
}
display_of (some r) = record {
  status = r.status;
  status_text = r.status_text;
  limit = header_value r.limit;
  remaining = header_value r.remaining;
  retry_after = header_value r.retry_after;
  duration_ms = r.duration_ms;
  size_bytes = r.size_bytes;
  body = r.body;
}

-- `a || b` on values
abbrev or_value : Json → Json → Json
or_value a b = if truthy (some a) then a else b

abbrev whole : Display → Json
whole d = obj (
    field "status" (num (show d.status)) (
      field "statusText" (str d.status_text) (
        field "limit" d.limit (
          field "remaining" d.remaining (
            field "retryAfter" d.retry_after (
              field "durationMs" (num (show d.duration_ms))
                (field "sizeBytes" (num (show d.size_bytes)) (field "body" d.body end))))))))

abbrev pub header_json : Display → Json
header_json d = obj (
    field "X-RateLimit-Limit" d.limit
      (field "X-RateLimit-Remaining" d.remaining (field "Retry-After" d.retry_after end)))

abbrev pub rate_json : Display → Json
rate_json d = obj (
    field "status" (num (show d.status)) (
      field "limit" d.limit (
        field "remaining" d.remaining
          (field "retryAfter" (or_value d.retry_after (str "not limited")) end))))

abbrev curl_text : Tester → String
curl_text t =
    join ("curl -X " ∷ t.method ∷ " \"" ∷ t.url ∷ "\" -H \"X-API-Key: YOUR_API_KEY\"" ∷ [])

module _ (stringify : Json → String) where
  tab_text : Tab → Tester → Display → String
  tab_text response t d = stringify (if is_null d.body then whole d else d.body)
  tab_text headers t d = stringify (header_json d)
  tab_text rate t d = stringify (rate_json d)
  tab_text curl t d = curl_text t

  -- The text of the active tab, for the result if there is one.
  unfoldable pub tab_content : Tester → Option DemoResult → String
  unfolding tab_text display_of
  tab_content t result = tab_text t.active_tab t (display_of result)

-- `trySample`
unfoldable pub try_sample : Tester → String → String → Tester
try_sample t method route = record t { method = method; url = append "http://localhost:8081" route }

abbrev pub is_ok : Display → Bool
is_ok d = leb 200 d.status && ltb d.status 300
