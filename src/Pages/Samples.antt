-- ===== src/Pages/Samples.antt =====
-- The requests of the playground and of the documentation against the server.
use rate_x_rate_limiter_web.Base.{◌≡◌, refl, String, Option, none, some, List, [], ◌∷◌, map, keep}
use rate_x_rate_limiter_web.Text.{begins}
use rate_x_rate_limiter_web.Api.Demo.{target}
use rate_x_rate_limiter_web.Panels.Tester.{Tester}
use rate_x_rate_limiter_web.Server.Router.{
  Handler, demo_products, Route, Guard, rate_limited, routes, serves, url_path, strip,
}
use rate_x_rate_limiter_web.Pages.Playground.{try_it, act, samples}

-- The path at the server of an address; "" for one elsewhere.
abbrev path_at : Option String → String
path_at none = ""
path_at (some path) = path

-- The guards and handlers of the routes that serve what the panel sends.
unfoldable pub served_by : String → Tester → List (Guard × Handler)
unfolding target strip serves url_path routes
served_by base t =
    map (λ (r : Route). (r.guard, r.handler))
      (keep
        (serves t.method (url_path (path_at (strip "http://localhost:8081" (target base t.url)))))
        routes)

-- Whatever was typed before, and whatever the base of the API is, trying the samples in turn sends
-- the two samples with GET to the demo endpoint behind the limiter, and the sample with POST to a
-- method and path that no route of the server has.
pub samples-served_by :
    (base : String) (t : Tester)
    → map (λ (s : String × String × String). served_by base (act t (try_it s.0 s.1))) samples
      ≡ ((rate_limited, demo_products) ∷ []) ∷ ((rate_limited, demo_products) ∷ []) ∷ [] ∷ []
unfolding served_by act begins
samples-served_by base t = refl
