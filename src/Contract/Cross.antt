-- ===== src/Contract/Cross.antt =====
-- The calls of the dashboard from another origin, against the configuration of CORS.
use rate_x_rate_limiter_web.Base.{String, Bool, none, ◌||◌, str_eq, if◌then◌else◌}
use rate_x_rate_limiter_web.Api.{Response}
use rate_x_rate_limiter_web.Server.Cors.{Cors, contains}

-- The response as the page sees it: other headers than those that are exposed are hidden.
abbrev pub seen : Cors → Response → Response
seen c r = record r { header = λ name. if contains c.exposed name then r.header name else none }

-- The origins that the server is for: the frontend's that is configured, and the local one.
abbrev pub is_served : String → String → Bool
is_served frontend page = str_eq frontend page || str_eq "http://localhost:3000" page
