-- ===== src/Server/Cors.antt =====
-- The configuration of CORS in cmd/server/main.go. What the browser and the library make of it is
-- the protocol's: a request of a page goes out if the origin of the page, the method and the headers are in
-- the lists, and the page sees a header of the answer if it is in the list of those that are exposed.
use rate_x_rate_limiter_web.Base.{String, Bool, ◌&&◌, not, List, [], ◌∷◌, any, str_eq}

pub record Cors : Type 0 where
  pub origins : List String
  pub methods : List String
  pub headers : List String
  pub exposed : List String

-- For the origin of the frontend that is configured.
unfoldable pub cors : String → Cors
cors frontend_origin = record {
  origins = frontend_origin ∷ "http://localhost:3000" ∷ [];
  methods = "GET" ∷ "POST" ∷ "PUT" ∷ "DELETE" ∷ "OPTIONS" ∷ [];
  headers = "Authorization" ∷ "Content-Type" ∷ "X-API-Key" ∷ "X-Admin-Token" ∷ [];
  exposed =
      "X-RateLimit-Limit" ∷ "X-RateLimit-Remaining" ∷ "X-RateLimit-Reset" ∷ "Retry-After" ∷ [];
}

abbrev pub contains : List String → String → Bool
contains names name = any (λ n. str_eq n name) names

-- A request of a page of the origin, with the method and the headers of the names, goes out.
abbrev pub allows : Cors → String → String → List (String × String) → Bool
allows c origin method headers =
    contains c.origins origin
    && contains c.methods method
    && not (any (λ (h : String × String). not (contains c.headers h.0)) headers)
